-- ===== src/Media/GenerationGuard.antt =====
-- `acquireImageGenerationAdmission` of image-generation-guard.js, over the rate limits and the
-- scoped semaphores of the gateway runtime.
pub mod Quota
use magento2_chat_ai.JsNumber.{JsNumber, whole, number_from_env}
use magento2_chat_ai.Prelude.{
  ℕ, ◌+◌, ◌*◌, min, max, Bool, true, false, Option, none, some, List, [], ◌∷◌, leb, not, keep, map,
  if◌then◌else◌,
}
use magento2_chat_ai.Runtime.RateLimit.{Admission, Policy, Rates, consume_rate_limit}
use magento2_chat_ai.Runtime.Scoped.{Scopes, acquire_scoped_capacity, release_scoped}

-- The `image_generation` settings that are read, as they are stored.
pub record ImageConfig : Type 0 where
  pub customer_per_hour : JsNumber
  pub guest_per_hour : JsNumber
  pub customer_per_day : JsNumber
  pub guest_per_day : JsNumber
  pub cooldown_seconds : JsNumber
  pub timeout_ms : JsNumber
  pub max_concurrent_per_identity : JsNumber

unfoldable pub hourly_limit : Bool → ImageConfig → ℕ
unfolding number_from_env
hourly_limit is_customer c =
    if is_customer
    then number_from_env c.customer_per_hour 3 1 100
    else number_from_env c.guest_per_hour 2 1 50

unfoldable pub daily_limit : Bool → ImageConfig → ℕ
unfolding number_from_env
daily_limit is_customer c =
    if is_customer
    then number_from_env c.customer_per_day 10 1 500
    else number_from_env c.guest_per_day 5 1 200

unfoldable pub cooldown : ImageConfig → ℕ
unfolding number_from_env
cooldown c = number_from_env c.cooldown_seconds 60 0 3600

-- The three counters of an identity: `${identity}:image:hour`, `:day` and `:cooldown`.
pub record Keys (K : Type 0) : Type 0 where
  pub hour : K
  pub day : K
  pub cooldown : K

pub record State (K S : Type 0) : Type 0 where
  pub rates : Rates K
  pub scopes : Scopes S

pub data Result : Type 0 where
  allowed : ℕ → Result
  busy : Result
  rate_limited : ℕ → Result

unfoldable pub hour_policy : Bool → ImageConfig → Policy
unfolding hourly_limit
hour_policy is_customer c = record {
  limit = whole (hourly_limit is_customer c);
  window_ms = whole 3600000;
  amount = whole 1;
}

-- `windowMs: 24 * 60 * 60 * 1000`.
unfoldable pub day_policy : Bool → ImageConfig → Policy
unfolding daily_limit
day_policy is_customer c = record {
  limit = whole (daily_limit is_customer c);
  window_ms = whole 86400000;
  amount = whole 1;
}

unfoldable pub cooldown_policy : ℕ → Policy
cooldown_policy seconds = record {
  limit = whole 1;
  window_ms = whole (seconds * 1000);
  amount = whole 1;
}

module _ {K : Type 0} (dec : Discrete K) where
  -- The calls of `checks`, in order, and their results.
  unfoldable pub cooldown_check : ℕ → ℕ → K → Rates K → List Admission × Rates K
  unfolding consume_rate_limit cooldown_policy
  cooldown_check now seconds key rates =
      if leb seconds 0
      then ([], rates)
      else let (a, rates') = consume_rate_limit dec now (cooldown_policy seconds) key rates in
        (a ∷ [], rates')

  unfoldable pub run_checks : ℕ → Bool → ImageConfig → Keys K → Rates K → List Admission × Rates K
  unfolding consume_rate_limit hour_policy day_policy cooldown cooldown_check
  run_checks now is_customer c keys rates =
      let (hour, rates₁) = consume_rate_limit dec now (hour_policy is_customer c) keys.hour rates in
      let (day, rates₂) = consume_rate_limit dec now (day_policy is_customer c) keys.day rates₁ in
      let (rest, rates₃) = cooldown_check now (cooldown c) keys.cooldown rates₂ in
      (hour ∷ day ∷ rest, rates₃)

-- `Math.max(...denied.map(...))`.
unfoldable pub longest_wait : List Admission → ℕ
longest_wait [] = 0
longest_wait (a ∷ as') = max a.retry_after_ms (longest_wait as')

unfoldable pub denied_of : List Admission → List Admission
unfolding keep
denied_of = keep (λ a. not a.allowed)

module _ {K S : Type 0} (dec : Discrete K) (dec_scope : Discrete S) where
  unfoldable pub conclude : ℕ → S → List Admission → State K S → Result × State K S
  unfolding longest_wait release_scoped
  conclude token scope [] s = (allowed token, s)
  conclude token scope (a ∷ as') s = (
    rate_limited (longest_wait (a ∷ as')),
    record s { scopes = release_scoped dec_scope token scope s.scopes },
  )

  unfoldable pub with_capacity :
      ℕ → Bool → Bool → ImageConfig → Keys K → S → Option ℕ → State K S → Result × State K S
  unfolding conclude run_checks denied_of
  with_capacity now is_customer charge c keys scope none s = (busy, s)
  with_capacity now is_customer charge c keys scope (some token) s =
      if charge
      then (let (results, rates) = run_checks dec now is_customer c keys s.rates in
          conclude token scope (denied_of results) (record s { rates = rates }))
      else (allowed token, s)

  -- The call for a known runtime and identity. `token` is the token that the runtime would draw.
  unfoldable pub acquire_image_generation_admission :
      ℕ → Bool → Bool → ImageConfig → Keys K → S → ℕ → State K S → Result × State K S
  unfolding with_capacity acquire_scoped_capacity number_from_env
  acquire_image_generation_admission now is_customer charge c keys scope token s =
      let timeout_ms = number_from_env c.timeout_ms 180000 30000 300000 in
      let concurrency = number_from_env c.max_concurrent_per_identity 1 1 3 in
      let (t, scopes) =
        acquire_scoped_capacity dec_scope now (whole concurrency)
          (whole (min 600000 (timeout_ms + 10000))) token scope s.scopes in
      with_capacity now is_customer charge c keys scope t (record s { scopes = scopes })
