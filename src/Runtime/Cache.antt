-- ===== src/Runtime/Cache.antt =====
-- The one `memoryCache` of gateway-runtime.js behind its four families of keys: authentication
-- entries, guest histories, JSON results and one-time claims. A key is the text that the code
-- builds from a prefix and a hash, so two families never share one.
pub mod Claims
use magento2_chat_ai.JsMap
use magento2_chat_ai.JsNumber.{JsNumber, number_from_env, whole}
use magento2_chat_ai.Prelude.{
  ℕ, ◌+◌, ◌*◌, Bool, true, false, Option, none, some, List, leb, if◌then◌else◌,
}

pub record Entry (V : Type 0) : Type 0 where
  pub value : V
  pub expires_at : ℕ

abbrev pub Cache : Type 0 → Type 0 → Type 0
Cache K V = List (K × Entry V)

-- `!entry || entry.expiresAt <= Date.now()` is false: the entry's value.
unfoldable pub live_value : {V : Type 0} → ℕ → Option (Entry V) → Option V
live_value now none = none
live_value now (some e) = if leb e.expires_at now then none else some e.value

module _ {K V : Type 0} (dec : Discrete K) where
  unfoldable pub after_read : K → Option V → Cache K V → Cache K V
  after_read key none m = JsMap.delete dec key m
  after_read key (some v) m = m

  -- `getAuthCache`, `getGuestSessionHistory` and `getJsonCache`: a miss deletes the key.
  unfoldable pub read_cache : ℕ → K → Cache K V → Option V × Cache K V
  unfolding live_value after_read
  read_cache now key m = let v = live_value now (JsMap.get dec key m) in (v, after_read key v m)

  unfoldable pub write_cache : ℕ → ℕ → K → V → Cache K V → Cache K V
  write_cache now safe_ttl key v m =
      JsMap.set dec key (record { value = v; expires_at = now + safe_ttl }) m

  unfoldable pub set_auth_cache : ℕ → JsNumber → K → V → Cache K V → Cache K V
  unfolding write_cache number_from_env
  set_auth_cache now ttl_ms = write_cache now (number_from_env ttl_ms 60000 1000 86400000)

  unfoldable pub set_guest_session_history : ℕ → JsNumber → K → V → Cache K V → Cache K V
  unfolding write_cache number_from_env
  set_guest_session_history now ttl_ms =
      write_cache now (number_from_env ttl_ms 28800000 60000 86400000)

  unfoldable pub set_json_cache : ℕ → JsNumber → K → V → Cache K V → Cache K V
  unfolding write_cache number_from_env
  set_json_cache now ttl_ms = write_cache now (number_from_env ttl_ms 60000 1000 3600000)

  -- `deleteAuthCache`, `deleteGuestSessionHistory` and `deleteJsonCache`.
  unfoldable pub delete_cache : K → Cache K V → Cache K V
  delete_cache = JsMap.delete dec

  unfoldable pub claim_found : ℕ → ℕ → K → V → Option V → Cache K V → Bool × Cache K V
  unfolding write_cache
  claim_found now safe_ttl key instance_id (some v) m = (false, m)
  claim_found now safe_ttl key instance_id none m =
      (true, write_cache now safe_ttl key instance_id m)

  unfoldable pub claim_once : ℕ → JsNumber → K → V → Cache K V → Bool × Cache K V
  unfolding live_value claim_found number_from_env
  claim_once now ttl_ms key instance_id m =
      claim_found now (number_from_env ttl_ms 300000 1000 600000) key instance_id
        (live_value now (JsMap.get dec key m)) m

  -- `ttlSeconds * 1000`, for a whole number of seconds.
  unfoldable pub claim_web_socket_ticket : ℕ → ℕ → K → V → Cache K V → Bool × Cache K V
  unfolding claim_once
  claim_web_socket_ticket now ttl_seconds = claim_once now (whole (ttl_seconds * 1000))

module _ {K : Type 0} (dec : Discrete K) where
  abbrev pub version_or_zero : Option ℕ → ℕ
  version_or_zero none = 0
  version_or_zero (some n) = n

  unfoldable pub get_cache_version : K → List (K × ℕ) → ℕ
  get_cache_version key m = version_or_zero (JsMap.get dec key m)

  unfoldable pub bump_cache_version : K → List (K × ℕ) → ℕ × List (K × ℕ)
  bump_cache_version key m =
      let next = version_or_zero (JsMap.get dec key m) + 1 in (next, JsMap.set dec key next m)
