-- ===== src/Providers/CircuitBreaker.antt =====
-- `ProviderCircuitBreaker` of provider-circuit-breaker.js. An `opened_at` of 0 means closed, as in
-- the source.
pub mod Trips
use magento2_chat_ai.JsMap
use magento2_chat_ai.Prelude.{
  ℕ, ◌+◌, ◌-◌, ◌/◌, max, Bool, true, false, ◌&&◌, Option, none, some, List, [], ◌∷◌, map, leb, ltb,
  or_else, if◌then◌else◌,
}

pub record Config : Type 0 where
  pub failure_threshold : ℕ
  pub cooldown_ms : ℕ

-- The constructor, for whole arguments that are not negative.
unfoldable pub new_config : ℕ → ℕ → Config
new_config failure_threshold cooldown_ms = record {
  failure_threshold = max 1 failure_threshold;
  cooldown_ms = max 1000 cooldown_ms;
}

pub record State : Type 0 where
  pub failures : ℕ
  pub opened_at : ℕ

pub record Permit : Type 0 where
  pub allowed : Bool
  pub retry_after_ms : ℕ

abbrev pub States : Type 0 → Type 0
States K = List (K × State)

abbrev pub closed : State
closed = record { failures = 0; opened_at = 0 }

-- The state that `recordFailure` stores and returns.
unfoldable pub failed_state : Config → ℕ → State → State
failed_state c now s =
    if leb c.failure_threshold (s.failures + 1)
    then record { failures = s.failures + 1; opened_at = now }
    else record s { failures = s.failures + 1 }

module _ {K : Type 0} (dec : Discrete K) where
  unfoldable pub check_state : Config → ℕ → K → Option State → States K → Permit × States K
  check_state c now key none m = (record { allowed = true; retry_after_ms = 0 }, m)
  check_state c now key (some s) m =
      if leb s.opened_at 0
      then (record { allowed = true; retry_after_ms = 0 }, m)
      else if leb c.cooldown_ms (now - s.opened_at)
      then (record { allowed = true; retry_after_ms = 0 }, JsMap.set dec key closed m)
      else (
        record { allowed = false; retry_after_ms = max 1000 (c.cooldown_ms - (now - s.opened_at)) },
        m,
      )

  unfoldable pub before_request : Config → ℕ → K → States K → Permit × States K
  unfolding check_state
  before_request c now key m = check_state c now key (JsMap.get dec key m) m

  unfoldable pub record_success : K → States K → States K
  record_success = JsMap.delete dec

  unfoldable pub record_failure : Config → ℕ → K → States K → State × States K
  unfolding failed_state
  record_failure c now key m =
      let s = failed_state c now (or_else (JsMap.get dec key m) closed) in
      (s, JsMap.set dec key s m)

-- A line of `snapshot`; `is_open` is its `state`.
pub record Line (K : Type 0) : Type 0 where
  pub key : K
  pub is_open : Bool
  pub failures : ℕ
  pub retry_after_seconds : ℕ

unfoldable pub snapshot : {K : Type 0} → Config → ℕ → States K → List (Line K)
snapshot c now = map λ e. record {
  key = e.0;
  is_open = ltb 0 e.1.opened_at && ltb (now - e.1.opened_at) c.cooldown_ms;
  failures = e.1.failures;
  retry_after_seconds =
      if ltb 0 e.1.opened_at then (c.cooldown_ms - (now - e.1.opened_at) + 999) / 1000 else 0;
}
