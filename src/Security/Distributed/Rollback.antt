-- ===== src/Security/Distributed/Rollback.antt =====
-- A refused or failed distributed admission leaves no lease behind.
use magento2_chat_ai.JsMap
use magento2_chat_ai.JsNumber.{number_from_env, whole}
use magento2_chat_ai.Prelude.{
  ℕ, ◌≡◌, ◌≢◌, inl, inr, refl, Bool, true, false, none, ◌∙◌, Option-cases, ℕ_discrete,
}
use magento2_chat_ai.Runtime.Scoped.{
  Scopes, acquire_scoped, acquire_scoped_capacity, release_scoped,
}
use magento2_chat_ai.Runtime.Scoped.Live.{live, live-refused, live-undone, live-release}
use magento2_chat_ai.Security.Distributed.{Limits, Request, admitted, acquire_network, admit}

-- The limit and the lease that the runtime makes of those it is passed.
abbrev limit_of : ℕ → ℕ
limit_of n = number_from_env (whole n) 1 1 100

abbrev lease_of : ℕ → ℕ
lease_of n = number_from_env (whole n) 180000 1000 600000

module _ {K : Type 0} (dec : Discrete K) where
  network-rollback :
      (now : ℕ) (l : Limits) (fails : Bool) (r : Request K) (m : Scopes K) (key : K)
      → ((g n : ℕ) → (acquire_network dec now l fails r m).0 ≢ admitted g n)
      → live dec now key (acquire_network dec now l fails r m).1
        ≡ live dec now key (release_scoped dec r.global_token r.global_key m)
  unfolding acquire_network acquire_scoped_capacity
  network-rollback now l true r m key denied = refl
  network-rollback now l false r m key denied =
      elim (Option-cases
        (acquire_scoped dec now (limit_of l.network_limit) (lease_of l.lease_ms) r.network_token
          r.network_key m).0) [
            | inl full ↦ rw full (
                live-release dec now r.global_token r.global_key key m _ λ j.
                  live-refused dec now (limit_of l.network_limit) (lease_of l.lease_ms)
                    r.network_token r.network_key j m full)
            | inr (t, got) ↦ absurd (denied r.global_token t (rw got))
          ]

  -- A distributed admission that is refused, or that fails because the runtime throws half-way,
  -- leaves every semaphore with the live leases that it had: no half of an admission stays.
  pub admit_rollback :
      (now : ℕ) (l : Limits) (fails : Bool) (r : Request K) (m : Scopes K) (key : K)
      → JsMap.get ℕ_discrete r.global_token (live dec now r.global_key m) ≡ none
      → ((g n : ℕ) → (admit dec now l fails r m).0 ≢ admitted g n)
      → live dec now key (admit dec now l fails r m).1 ≡ live dec now key m
  unfolding admit acquire_scoped_capacity
  admit_rollback now l fails r m key own denied =
      let m₁ =
        (acquire_scoped dec now (limit_of l.global_limit) (lease_of l.lease_ms) r.global_token
          r.global_key m).1 in
      elim (Option-cases
        (acquire_scoped dec now (limit_of l.global_limit) (lease_of l.lease_ms) r.global_token
          r.global_key m).0) [
            | inl full ↦ rw full (
                live-refused dec now (limit_of l.global_limit) (lease_of l.lease_ms) r.global_token
                  r.global_key key m full)
            | inr (t, got) ↦
                let undone =
                  live-undone dec now (limit_of l.global_limit) (lease_of l.lease_ms) r.global_token
                    t r.global_key key m got own in
                rw got (network-rollback now l fails r m₁ key (rw got at denied) ∙ undone)
          ]
