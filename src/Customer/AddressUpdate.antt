-- ===== src/Customer/AddressUpdate.antt =====
-- `createAddressUpdateAdmission` of address-update-admission.js, over the cache, the rate limits and
-- the locks of the gateway runtime. The verification of the form's token is an argument.

use magento2_chat_ai.JsNumber.{JsNumber, whole}
use magento2_chat_ai.Prelude.{
  ℕ, ◌+◌, ◌-◌, ◌/◌, ◌≡◌, refl, max, Bool, true, false, ◌&&◌, Option, none, some, leb, if◌then◌else◌,
  ite,
}
use magento2_chat_ai.Runtime.RateLimit.{Admission, Rates, consume_rate_limit}
use magento2_chat_ai.Runtime.Locks.{Locks, acquire_action_lock}
use magento2_chat_ai.Runtime.Cache.{Cache, read_cache, set_auth_cache}

pub record ActiveForm (F : Type 0) : Type 0 where
  pub form_id : F
  pub expires_at : ℕ

-- The keys of a client: its active form in a conversation, its two counters and its lock.
pub record Keys (K : Type 0) : Type 0 where
  pub form : ℕ → K
  pub minute : K
  pub hour : K
  pub lock : K

pub record World (K F : Type 0) : Type 0 where
  pub cache : Cache K (ActiveForm F)
  pub rates : Rates K
  pub locks : Locks K

-- The limits that were read, `lockMs`, and the answer of the token's verification: the conversation
-- of a valid token, or none.
pub record Settings : Type 0 where
  pub per_minute : JsNumber
  pub per_hour : JsNumber
  pub lock_ms : JsNumber

pub data Result : Type 0 where
  locked : ℕ → Result
  invalid_form form_superseded update_in_progress : Result
  rate_limited : ℕ → Result

module _ {K F : Type 0} (dec : Discrete K) where
  -- An empty form id is none.
  unfoldable pub activate : ℕ → Keys K → ℕ → Option F → ℕ → World K F → Bool × World K F
  unfolding set_auth_cache
  activate now keys conversation_id none expires_at w = (false, w)
  activate now keys conversation_id (some form_id) expires_at w =
      let form : ActiveForm F = record { form_id = form_id; expires_at = expires_at } in
      let stored =
        set_auth_cache dec now (whole (expires_at - now)) (keys.form conversation_id) form
          w.cache in
      if leb conversation_id 0
      then (false, w)
      else if leb expires_at now
      then (false, w)
      else (true, record w { cache = stored })

abbrev pub wait_of : Admission → ℕ
wait_of a = if a.allowed then 0 else a.retry_after_ms

unfoldable pub lock_result : Option ℕ → Result
lock_result none = update_in_progress
lock_result (some token) = locked token

module _ {K F : Type 0} (dec : Discrete K) where
  unfoldable pub admit_rates : ℕ → Settings → Keys K → ℕ → World K F → Result × World K F
  unfolding consume_rate_limit acquire_action_lock lock_result
  admit_rates now c keys token w =
      let (minute, rates₁) =
        consume_rate_limit dec now
          (record { limit = c.per_minute; window_ms = whole 60000; amount = whole 1 }) keys.minute
          w.rates in
      let (hour, rates₂) =
        consume_rate_limit dec now
          (record { limit = c.per_hour; window_ms = whole 3600000; amount = whole 1 }) keys.hour
          rates₁ in
      let w' = record w { rates = rates₂ } in
      let (lock, locks) = acquire_action_lock dec now c.lock_ms token keys.lock w.locks in
      if minute.allowed && hour.allowed
      then (lock_result lock, record w' { locks = locks })
      else (rate_limited (max 1 ((max (wait_of minute) (wait_of hour) + 999) / 1000)), w')

module _ {K F : Type 0} (dec : Discrete K) (dec_form : Discrete F) where
  unfoldable pub is_active : F → Option (ActiveForm F) → Bool
  is_active form_id none = false
  is_active form_id (some f) = ite (dec_form f.form_id form_id) true false

  unfoldable pub admit : ℕ → Settings → Keys K → ℕ → Option ℕ → F → World K F → Result × World K F
  unfolding admit_rates read_cache is_active
  admit now c keys token none form_id w = (invalid_form, w)
  admit now c keys token (some conversation_id) form_id w =
      let (active, cache) = read_cache dec now (keys.form conversation_id) w.cache in
      let w' = record w { cache = cache } in
      let admitted = admit_rates dec now c keys token w' in
      if is_active form_id active then admitted else (form_superseded, w')

  -- A form that is not the active one of its conversation is refused, and neither a counter nor a
  -- lock is touched.
  pub superseded-rates :
      (now : ℕ) (c : Settings) (keys : Keys K) (token conversation_id : ℕ) (form_id : F)
      (w : World K F)
      → is_active form_id (read_cache dec now (keys.form conversation_id) w.cache).0 ≡ false
      → let (r, w') = admit now c keys token (some conversation_id) form_id w in
        (r ≡ form_superseded) × (w'.rates ≡ w.rates) × (w'.locks ≡ w.locks)
  unfolding admit
  superseded-rates now c keys token conversation_id form_id w stale = rw stale (refl, refl, refl)
