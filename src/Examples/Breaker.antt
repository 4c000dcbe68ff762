-- ===== src/Examples/Breaker.antt =====
-- A breaker of provider-circuit-breaker.js that opens at the third failure.
use magento2_chat_ai.Prelude.{ℕ, [], ◌∷◌}
use magento2_chat_ai.Providers.CircuitBreaker.{Config, States}

abbrev three : Config
three = record { failure_threshold = 3; cooldown_ms = 30000 }

abbrev tripped : States ℕ
tripped = (1, record { failures = 3; opened_at = 1000 }) ∷ []
