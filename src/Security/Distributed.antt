-- ===== src/Security/Distributed.antt =====
-- `createDistributedWebSocketConnectionAdmission` of websocket-security.js, over the scoped
-- semaphores of the gateway runtime.
pub mod Rollback
use magento2_chat_ai.JsNumber.{JsNumber, bounded_or_default, whole}
use magento2_chat_ai.Prelude.{ℕ, Bool, true, false, Option, none, some, List, if◌then◌else◌}
use magento2_chat_ai.Runtime.Scoped.{Scopes, acquire_scoped_capacity, release_scoped}
use magento2_chat_ai.Security.Connections.{Reason, global_cap, network_cap}

pub record Limits : Type 0 where
  pub global_limit : ℕ
  pub network_limit : ℕ
  pub lease_ms : ℕ

unfoldable pub clamp_limits : JsNumber → JsNumber → JsNumber → Limits
unfolding bounded_or_default
clamp_limits global_limit network_limit lease_ms = record {
  global_limit = bounded_or_default global_limit 500 1 10000;
  network_limit = bounded_or_default network_limit 20 1 1000;
  lease_ms = bounded_or_default lease_ms 90000 30000 600000;
}

-- The two semaphores of a request, and the tokens that the runtime would draw for them.
pub record Request (K : Type 0) : Type 0 where
  pub global_key : K
  pub network_key : K
  pub global_token : ℕ
  pub network_token : ℕ

-- `admit` returns an admission, refuses, or throws what the runtime threw.
pub data Result : Type 0 where
  admitted : ℕ → ℕ → Result
  refused : Reason → Result
  threw : Result

module _ {K : Type 0} (dec : Discrete K) where
  unfoldable pub after_network : Request K → Option ℕ → Scopes K → Result × Scopes K
  after_network r none m = (refused network_cap, release_scoped dec r.global_token r.global_key m)
  after_network r (some t) m = (admitted r.global_token t, m)

  unfoldable pub acquire_network : ℕ → Limits → Bool → Request K → Scopes K → Result × Scopes K
  unfolding after_network acquire_scoped_capacity
  acquire_network now l fails r m =
      if fails
      then (threw, release_scoped dec r.global_token r.global_key m)
      else let (t, m') =
          acquire_scoped_capacity dec now (whole l.network_limit) (whole l.lease_ms) r.network_token
            r.network_key m in
        after_network r t m'

  unfoldable pub after_global :
      ℕ → Limits → Bool → Request K → Option ℕ → Scopes K → Result × Scopes K
  unfolding acquire_network
  after_global now l fails r none m = (refused global_cap, m)
  after_global now l fails r (some t) m = acquire_network now l fails r m

  -- `fails` says that the runtime throws at the second acquisition.
  unfoldable pub admit : ℕ → Limits → Bool → Request K → Scopes K → Result × Scopes K
  unfolding after_global acquire_scoped_capacity
  admit now l fails r m =
      let (t, m') =
        acquire_scoped_capacity dec now (whole l.global_limit) (whole l.lease_ms) r.global_token
          r.global_key m in
      after_global now l fails r t m'

  -- The `release` of an admission.
  unfoldable pub release : Request K → Scopes K → Scopes K
  release r m =
      release_scoped dec r.network_token r.network_key
        (release_scoped dec r.global_token r.global_key m)
