-- ===== src/Providers/CircuitBreaker/Trips.antt =====
-- When the breaker of provider-circuit-breaker.js opens, and when it lets requests through again.
use magento2_chat_ai.JsMap
use magento2_chat_ai.Prelude.{
  ℕ, ◌+◌, ◌-◌, ◌≤◌, ◌<◌, ◌≡◌, inl, inr, ap, Bool, true, false, none, some, List, [], ◌∷◌, arith,
  ◌∙◌, Option-cases, leb, or_else, if◌then◌else◌, length,
}
use magento2_chat_ai.Providers.CircuitBreaker.{
  Config, State, States, closed, check_state, before_request, failed_state, record_failure,
}

module _ {K : Type 0} (dec : Discrete K) (c : Config) (key : K) where
  -- Failures of one provider at the given times, with no success in between.
  pub fail_all : List ℕ → States K → States K
  fail_all [] m = m
  fail_all (now ∷ times) m = fail_all times (record_failure dec c now key m).1

abbrev pub last_or : ℕ → List ℕ → ℕ
last_or d [] = d
last_or d (t ∷ ts) = last_or t ts

-- The state that a series of failures leaves behind.
pub after_failures : Config → List ℕ → State → State
after_failures c times s = record {
  failures = s.failures + length times;
  opened_at =
      if leb c.failure_threshold (s.failures + length times)
      then last_or s.opened_at times
      else s.opened_at;
}

after_failures-cons :
    (c : Config) (now : ℕ) (times : List ℕ) (s : State)
    → after_failures c times (failed_state c now s) ≡ after_failures c (now ∷ times) s
unfolding after_failures failed_state
after_failures-cons c now [] s = ground arith
after_failures-cons c now (t ∷ times) s = ground arith

module _ {K : Type 0} (dec : Discrete K) (c : Config) (key : K) where
  abbrev pub state_of : States K → State
  state_of m = or_else (JsMap.get dec key m) closed

  state_of-fail_all :
      (times : List ℕ) (m : States K)
      → state_of (fail_all dec c key times m) ≡ after_failures c times (state_of m)
  unfolding fail_all record_failure
  state_of-fail_all [] m = unfold after_failures in ground arith
  state_of-fail_all (now ∷ times) m =
      let s = failed_state c now (state_of m) in
      state_of-fail_all times _
      ∙ ap (λ o. after_failures c times (or_else o closed)) (JsMap.get-set_self dec key s m)
      ∙ after_failures-cons c now times (state_of m)

  permit-state_of :
      (now : ℕ) (m : States K)
      → (before_request dec c now key m).0.allowed ≡ (
          let s = state_of m in
          if leb s.opened_at 0 then true else leb c.cooldown_ms (now - s.opened_at))
  unfolding before_request check_state
  permit-state_of now m = elim (Option-cases (JsMap.get dec key m)) [
    | inl missing ↦ rw missing
    | inr (s, found) ↦ rw found (ground arith)
  ]

  -- From no record at all, failures in a row open the circuit exactly when they are as many as the
  -- threshold, and it then refuses until the cooldown has passed since the last of them.
  pub fail_all-allowed :
      (first : ℕ) (times : List ℕ) (later : ℕ) (m : States K)
      → 0 < last_or first times
      → JsMap.get dec key m ≡ none
      → (before_request dec c later key (fail_all dec c key (first ∷ times) m)).0.allowed ≡ (
          if leb c.failure_threshold (1 + length times)
          then leb c.cooldown_ms (later - last_or first times)
          else true)
  unfolding after_failures
  fail_all-allowed first times later m positive missing =
      permit-state_of later _
      ∙ ap (allowed_in later) (state_of-fail_all (first ∷ times) m)
      ∙ rw missing (ground arith)
    where
      allowed_in : ℕ → State → Bool
      allowed_in now s = if leb s.opened_at 0 then true else leb c.cooldown_ms (now - s.opened_at)

  -- While the clock does not go back: a refused request reports a wait of at least a second after which, if nothing else happens, a
  -- request is let through and the failures are forgotten.
  pub before_request_recovers :
      (now later : ℕ) (m : States K)
      → (state_of m).opened_at ≤ now
      → (before_request dec c now key m).0.allowed ≡ false
      → now + (before_request dec c now key m).0.retry_after_ms ≤ later
      → (1000 ≤ (before_request dec c now key m).0.retry_after_ms)
        × ((before_request dec c later key m).0.allowed ≡ true)
        × (state_of (before_request dec c later key m).1 ≡ closed)
  unfolding before_request check_state
  before_request_recovers now later m before refused wait =
      elim (Option-cases (JsMap.get dec key m)) [
        | inl missing ↦ absurd (true-ne-false (rw missing at refused))
        | inr (s, found) ↦
            recovers s found (rw found at before) (rw found at refused) (rw found at wait)
      ]
    where
      true-ne-false : true ≡ false → ⊥
      true-ne-false e = cc

      recovers :
          (s : State)
          → JsMap.get dec key m ≡ some s
          → s.opened_at ≤ now
          → (check_state dec c now key (some s) m).0.allowed ≡ false
          → now + (check_state dec c now key (some s) m).0.retry_after_ms ≤ later
          → (1000 ≤ (check_state dec c now key (JsMap.get dec key m) m).0.retry_after_ms)
            × ((check_state dec c later key (JsMap.get dec key m) m).0.allowed ≡ true)
            × (state_of (check_state dec c later key (JsMap.get dec key m) m).1 ≡ closed)
      recovers s found before refused wait =
          rw found (ground (arith, JsMap.get-set_self dec key closed m))
