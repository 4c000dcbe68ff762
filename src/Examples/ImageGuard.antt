-- ===== src/Examples/ImageGuard.antt =====
-- Image requests of image-generation-guard.js with one slot for each identity.
use magento2_chat_ai.Prelude.{ℕ, [], ◌∷◌}
use magento2_chat_ai.JsNumber.{nan}
use magento2_chat_ai.Media.GenerationGuard.{ImageConfig, Keys, State}

abbrev unset : ImageConfig
unset = record {
  customer_per_hour = nan;
  guest_per_hour = nan;
  customer_per_day = nan;
  guest_per_day = nan;
  cooldown_seconds = nan;
  timeout_ms = nan;
  max_concurrent_per_identity = nan;
}

abbrev keys : Keys ℕ
keys = record { hour = 1; day = 2; cooldown = 3 }

abbrev taken : State ℕ ℕ
taken = record { rates = []; scopes = (7, (5, 1000) ∷ []) ∷ [] }
