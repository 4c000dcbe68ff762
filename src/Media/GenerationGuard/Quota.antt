-- ===== src/Media/GenerationGuard/Quota.antt =====
-- What the image quotas of image-generation-guard.js amount to.
use magento2_chat_ai.JsMap
use magento2_chat_ai.JsNumber.{whole, number_from_env}
use magento2_chat_ai.Prelude.{
  ℕ, ◌+◌, ◌≤◌, ◌≡◌, ◌≢◌, inl, inr, refl, Bool, true, false, none, some, List, [], ◌∷◌, arith, ◌∙◌,
  Option-cases, ℕ_discrete, min,
}
use magento2_chat_ai.Runtime.RateLimit.{
  Admission, Rates, fresh, consume_rate_limit, safe_window, safe_limit, safe_amount,
}
use magento2_chat_ai.Runtime.RateLimit.Window.{get-consume_fits}
use magento2_chat_ai.Runtime.Scoped.{acquire_scoped_capacity, acquire_scoped, release_scoped}
use magento2_chat_ai.Runtime.Scoped.Live.{live, live-undone, live-refused, acquired-token}
use magento2_chat_ai.Media.GenerationGuard.{
  ImageConfig, Keys, State, allowed, busy, day_policy, daily_limit, conclude, with_capacity,
  acquire_image_generation_admission,
}

module _ {K S : Type 0} (dec : Discrete K) (dec_scope : Discrete S) where
  -- A request that finds no free slot is refused as busy and charges no quota.
  pub busy-rates :
      (now : ℕ) (is_customer charge : Bool) (c : ImageConfig) (keys : Keys K) (scope : S)
      (token : ℕ) (s : State K S)
      → (acquire_scoped_capacity dec_scope now
          (whole (number_from_env c.max_concurrent_per_identity 1 1 3))
          (whole (min 600000 (number_from_env c.timeout_ms 180000 30000 300000 + 10000)))
          token
          scope
          s.scopes).0
        ≡ none
      → let (r, s') =
          acquire_image_generation_admission dec dec_scope now is_customer charge c keys scope token
            s in
        (r ≡ busy) × (s'.rates ≡ s.rates)
  unfolding acquire_image_generation_admission
  busy-rates now is_customer charge c keys scope token s none_free = rw none_free (refl, refl)

  conclude-live :
      (now : ℕ) (scope other : S) (token : ℕ) (denials : List Admission) (s : State K S)
      → (conclude dec dec_scope token scope denials s).0 ≢ allowed token
      → live dec_scope now other (conclude dec dec_scope token scope denials s).1.scopes
        ≡ live dec_scope now other (release_scoped dec_scope token scope s.scopes)
  unfolding conclude
  conclude-live now scope other token [] s denied = absurd (denied refl)
  conclude-live now scope other token (a ∷ as') s denied = refl

  charged-live :
      (now : ℕ) (is_customer charge : Bool) (c : ImageConfig) (keys : Keys K) (scope other : S)
      (token : ℕ) (s : State K S)
      → (with_capacity dec dec_scope now is_customer charge c keys scope (some token) s).0
        ≢ allowed token
      → live dec_scope now other
          (with_capacity dec dec_scope now is_customer charge c keys scope (some token) s).1.scopes
        ≡ live dec_scope now other (release_scoped dec_scope token scope s.scopes)
  unfolding with_capacity
  charged-live now is_customer true c keys scope other token s denied =
      conclude-live now scope other token _ _ denied
  charged-live now is_customer false c keys scope other token s denied = absurd (denied refl)

  -- A request that a quota refuses, or that finds no free slot, leaves the live slots of every
  -- identity as they were.
  pub refused-live :
      (now : ℕ) (is_customer charge : Bool) (c : ImageConfig) (keys : Keys K) (scope other : S)
      (token : ℕ) (s : State K S)
      → JsMap.get ℕ_discrete token (live dec_scope now scope s.scopes) ≡ none
      → (acquire_image_generation_admission dec dec_scope now is_customer charge c keys scope token
          s).0
        ≢ allowed token
      → live dec_scope now other
          (acquire_image_generation_admission dec dec_scope now is_customer charge c keys scope
            token s).1.scopes
        ≡ live dec_scope now other s.scopes
  unfolding acquire_image_generation_admission acquire_scoped_capacity
  refused-live now is_customer charge c keys scope other token s own denied =
      let slots =
        number_from_env (whole (number_from_env c.max_concurrent_per_identity 1 1 3)) 1 1 100 in
      let lease =
        number_from_env
          (whole (min 600000 (number_from_env c.timeout_ms 180000 30000 300000 + 10000))) 180000
          1000 600000 in
      let s₁ : State K S = record s {
        scopes = (acquire_scoped dec_scope now slots lease token scope s.scopes).1;
      } in
      elim (Option-cases (acquire_scoped dec_scope now slots lease token scope s.scopes).0) [
        | inl full ↦
            rw full (live-refused dec_scope now slots lease token scope other s.scopes full)
        | inr (t, got) ↦
            let own_token = acquired-token dec_scope now slots lease token t scope s.scopes got in
            let got' = rw own_token at got in
            rw got' (
              charged-live now is_customer charge c keys scope other token s₁ (rw got' at denied)
              ∙ live-undone dec_scope now slots lease token token scope other s.scopes got' own)
      ]

-- The clamp of the runtime cuts the window of a day to an hour: an hour after its first charge, the
-- day counter of an identity stands at nothing again, whatever the daily limit is.
pub day-counter_resets :
    {K : Type 0} (dec : Discrete K) (now later window : ℕ) (is_customer : Bool) (c : ImageConfig)
    (key : K) (m : Rates K)
    → JsMap.get dec key m ≡ none
    → now + 3600000 ≤ later
    → ((consume_rate_limit dec now (day_policy is_customer c) key m).0.allowed ≡ true)
      × ((fresh later window (
            JsMap.get dec key
              (consume_rate_limit dec now (day_policy is_customer c) key m).1)).count
          ≡ 0)
unfolding consume_rate_limit safe_limit safe_window safe_amount day_policy fresh
day-counter_resets dec now later window is_customer c key m missing hour =
    let limit = number_from_env (whole (daily_limit is_customer c)) 15 1 10000 in
    let (stored, admitted) =
      get-consume_fits dec limit 3600000 key now 1 m (rw missing (omega arith)) in
    (admitted, rw stored (rw missing (ground arith)))
