-- ===== src/Examples/Batch.antt =====
-- A batch of two policies of gateway-runtime.js, admitted and refused.
use magento2_chat_ai.Prelude.{ℕ, refl, List, [], ◌∷◌, ℕ_discrete}
use magento2_chat_ai.JsMap
use magento2_chat_ai.JsNumber.{whole, number_from_env}
use magento2_chat_ai.Runtime.RateLimit.{
  Policy, Rates, fresh, write_back, safe_limit, safe_window, safe_amount,
}
use magento2_chat_ai.Runtime.Batch.{
  Entry, consume_rate_limit_batch, normalize, consume_policies, merge, seen, refresh, charge,
  refuse_or_charge,
}
use magento2_chat_ai.Runtime.Batch.Atomic.{Charged, first_amount, batch-Charged}

abbrev policy : Policy
policy = record { limit = whole 1; window_ms = whole 60000; amount = whole 1 }

abbrev two : List (Entry ℕ)
two = record { identity = 1; policy = policy } ∷ record { identity = 2; policy = policy } ∷ []

abbrev full : Rates ℕ
full = (2, record { count = 1; expires_at = 60000 }) ∷ []

batch-Charged_example :
    Charged ℕ_discrete 0
      (first_amount (normalize ℕ_discrete (λ i. i) two []))
      []
      (consume_rate_limit_batch ℕ_discrete (λ i. i) 0 two []).1
      (normalize ℕ_discrete (λ i. i) two [])
unfolding consume_rate_limit_batch normalize consume_policies merge seen refresh charge
    refuse_or_charge fresh write_back safe_limit safe_window safe_amount JsMap.get JsMap.set
    number_from_env ℕ_discrete
batch-Charged_example = batch-Charged ℕ_discrete (λ i. i) 0 two [] refl
