-- ===== src/Examples/RateLimit.antt =====
-- Two requests on one counter of gateway-runtime.js.
use magento2_chat_ai.Prelude.{ℕ, ◌≤◌, refl, [], ◌∷◌, arith, ℕ_discrete}
use magento2_chat_ai.JsMap
use magento2_chat_ai.Runtime.RateLimit.{Rates, fresh}
use magento2_chat_ai.Runtime.RateLimit.Window.{granted, granted-le_limit}

granted-le_limit_example : granted ℕ_discrete 1 60000 7 ((0, 1) ∷ (10, 1) ∷ []) [] ≤ 1
unfolding fresh JsMap.get
granted-le_limit_example =
    granted-le_limit ℕ_discrete 1 60000 7 0 ((0, 1) ∷ (10, 1) ∷ []) [] refl
      (omega arith, omega arith, (omega arith, omega arith, tt))

abbrev full : Rates ℕ
full = (7, record { count = 1; expires_at = 60000 }) ∷ []
