-- ===== src/Examples/Scoped.antt =====
-- Two requests and a release on one semaphore of gateway-runtime.js.
use magento2_chat_ai.Prelude.{ℕ, List, [], ◌∷◌, arith, ℕ_discrete}
use magento2_chat_ai.JsMap
use magento2_chat_ai.Runtime.Scoped.Bound.{
  Event, acquire, release, run, IsBounded, leases, run-IsBounded,
}

abbrev calls : List (Event ℕ)
calls = acquire 0 1000 5 1 ∷ acquire 1 1000 6 1 ∷ release 5 1 ∷ []

run-IsBounded_example : IsBounded ℕ_discrete 1 (run ℕ_discrete 1 calls [])
unfolding leases JsMap.get
run-IsBounded_example = run-IsBounded ℕ_discrete 1 calls [] (λ key. omega arith)
