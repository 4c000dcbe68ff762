-- ===== src/Runtime/Locks.antt =====
-- `acquireActionLock` of gateway-runtime.js in its in-memory mode. A token is a number that stands
-- for the instance id and the random UUID.
pub mod Exclusion
use magento2_chat_ai.JsMap
use magento2_chat_ai.JsNumber.{JsNumber, number_from_env}
use magento2_chat_ai.Prelude.{
  ℕ, ◌+◌, ◌==◌, Bool, true, false, Option, none, some, List, leb, if◌then◌else◌,
}

pub record Lock : Type 0 where
  pub token : ℕ
  pub expires_at : ℕ

abbrev pub Locks : Type 0 → Type 0
Locks K = List (K × Lock)

-- The guard `current && current.expiresAt > Date.now()`.
unfoldable pub is_held : ℕ → Option Lock → Bool
is_held now none = false
is_held now (some l) = if leb l.expires_at now then false else true

module _ {K : Type 0} (dec : Discrete K) where
  -- The token of the lock that was granted, and the locks after the call.
  unfoldable pub acquire_action_lock : ℕ → JsNumber → ℕ → K → Locks K → Option ℕ × Locks K
  unfolding is_held number_from_env
  acquire_action_lock now ttl_ms token key m =
      let safe_ttl = number_from_env ttl_ms 20000 1000 60000 in
      if is_held now (JsMap.get dec key m)
      then (none, m)
      else (some token, JsMap.set dec key (record { token = token; expires_at = now + safe_ttl }) m)

  unfoldable pub drop_if_owner : ℕ → K → Option Lock → Locks K → Locks K
  drop_if_owner token key none m = m
  drop_if_owner token key (some l) m = if l.token == token then JsMap.delete dec key m else m

  -- The `release` closure of a granted lock.
  unfoldable pub release_lock : ℕ → K → Locks K → Locks K
  unfolding drop_if_owner
  release_lock token key m = drop_if_owner token key (JsMap.get dec key m) m
