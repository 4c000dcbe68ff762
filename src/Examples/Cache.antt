-- ===== src/Examples/Cache.antt =====
-- A ticket of gateway-runtime.js that is claimed once.
use magento2_chat_ai.Prelude.{ℕ, ◌≡◌, refl, false, List, [], ◌∷◌, arith, ℕ_discrete}
use magento2_chat_ai.JsMap
use magento2_chat_ai.JsNumber.{nan, number_from_env}
use magento2_chat_ai.Runtime.Cache.{Cache, claim_once, live_value, claim_found}
use magento2_chat_ai.Runtime.Cache.Claims.{Event, claim, read, write, run, claim-once}

abbrev calls : List (Event ℕ ℕ)
calls = claim 10 nan 1 8 ∷ read 11 1 ∷ write 12 1000 2 9 ∷ []

abbrev stored : Cache ℕ ℕ
stored = (1, record { value = 4; expires_at = 50 }) ∷ []

claim-once_example :
    claim_once ℕ_discrete 20 nan 1 8 (run ℕ_discrete calls (claim_once ℕ_discrete 0 nan 1 7 []).1)
    ≡ (false, run ℕ_discrete calls (claim_once ℕ_discrete 0 nan 1 7 []).1)
unfolding claim_once live_value claim_found number_from_env JsMap.get
claim-once_example =
    claim-once ℕ_discrete 0 20 nan nan 1 7 8 [] calls refl
      (omega arith, (omega arith, (omega arith, λ e. omega (arith, e), tt))) (omega arith)
