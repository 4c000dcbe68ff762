-- ===== src/Runtime/Scoped.antt =====
-- `acquireScopedCapacity` and `renewScopedCapacity` of gateway-runtime.js in memory: a bounded
-- semaphore per key, whose entries are tokens with the time at which their lease ends.
pub mod Bound
pub mod Live
use magento2_chat_ai.JsMap
use magento2_chat_ai.JsNumber.{JsNumber, number_from_env}
use magento2_chat_ai.Prelude.{
  ℕ, ◌+◌, Bool, true, false, Option, none, some, List, [], ◌∷◌, leb, ltb, length, keep, or_else,
  if◌then◌else◌, ℕ_discrete,
}

-- Tokens and the ends of their leases.
abbrev pub Leases : Type 0
Leases = List (ℕ × ℕ)

abbrev pub Scopes : Type 0 → Type 0
Scopes K = List (K × Leases)

abbrev pub is_live : ℕ → ℕ × ℕ → Bool
is_live now l = ltb now l.1

-- The loop that deletes the entries with `expiresAt <= now`.
unfoldable pub purge : ℕ → Leases → Leases
unfolding keep
purge now = keep (is_live now)

module _ {K : Type 0} (dec : Discrete K) where
  -- A map that was missing is the caller's own until the call succeeds; one that was found is
  -- purged where it stands.
  unfoldable pub write_purged : K → Leases → Option Leases → Scopes K → Scopes K
  write_purged key current none m = m
  write_purged key current (some old) m = JsMap.set dec key current m

  unfoldable pub acquire_scoped : ℕ → ℕ → ℕ → ℕ → K → Scopes K → Option ℕ × Scopes K
  unfolding purge write_purged
  acquire_scoped now concurrency lease_ms token key m =
      let old = JsMap.get dec key m in
      let current = purge now (or_else old []) in
      if leb concurrency (length current)
      then (none, write_purged key current old m)
      else (some token, JsMap.set dec key (JsMap.set ℕ_discrete token (now + lease_ms) current) m)

  -- With `{ concurrency, leaseMs }` as they are passed.
  unfoldable pub acquire_scoped_capacity :
      ℕ → JsNumber → JsNumber → ℕ → K → Scopes K → Option ℕ × Scopes K
  unfolding number_from_env
  acquire_scoped_capacity now concurrency lease_ms =
      acquire_scoped now (number_from_env concurrency 1 1 100)
        (number_from_env lease_ms 180000 1000 600000)

  -- Deleting from a map that is empty afterwards drops the map.
  unfoldable pub put_leases : K → Leases → Scopes K → Scopes K
  put_leases key [] m = JsMap.delete dec key m
  put_leases key (l ∷ ls) m = JsMap.set dec key (l ∷ ls) m

  unfoldable pub release_found : ℕ → K → Option Leases → Scopes K → Scopes K
  unfolding put_leases
  release_found token key none m = m
  release_found token key (some ls) m = put_leases key (JsMap.delete ℕ_discrete token ls) m

  -- The `release` closure.
  unfoldable pub release_scoped : ℕ → K → Scopes K → Scopes K
  unfolding release_found
  release_scoped token key m = release_found token key (JsMap.get dec key m) m

  unfoldable pub renew_entry : ℕ → ℕ → ℕ → K → Leases → Option ℕ → Scopes K → Bool × Scopes K
  renew_entry now safe_lease token key ls none m = (false, m)
  renew_entry now safe_lease token key ls (some e) m =
      (true, JsMap.set dec key (JsMap.set ℕ_discrete token (now + safe_lease) ls) m)

  unfoldable pub renew_scoped_capacity : ℕ → ℕ → JsNumber → K → Scopes K → Bool × Scopes K
  unfolding renew_entry number_from_env
  renew_scoped_capacity now token lease_ms key m =
      let ls = or_else (JsMap.get dec key m) [] in
      renew_entry now (number_from_env lease_ms 180000 1000 600000) token key ls
        (JsMap.get ℕ_discrete token ls) m
