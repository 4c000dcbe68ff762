-- ===== src/Examples/Admission.antt =====
-- Requests at the guards of actions, images and voice, limits of the environment, and a logout.
use magento2_chat_ai.JsNumber.{whole, nan}
use magento2_chat_ai.Prelude.{ℕ, some, List, [], ◌∷◌}
use magento2_chat_ai.Runtime.Limits.{Environment}
use magento2_chat_ai.Security.Revocation.{Client}
use magento2_chat_ai.Security.ActionGuard
use magento2_chat_ai.Security.ActionGuard.{
  policy, guest_order_request_otp, guard_web_socket_action, otp-allowed,
}
use magento2_chat_ai.Media.ImageAdmission
use magento2_chat_ai.Media.ImageAdmission.{
  Part, attachment, inline_data, other, positive_integer, image_count, image_request_cost,
  encoded_bytes, encoded_size, units_of, entry, policies, admitted_by, admit_image_request,
  admit_refused-counted, image_request_cost-cons,
}
use magento2_chat_ai.Media.VoiceGuard
use magento2_chat_ai.Media.VoiceGuard.{
  VoiceConfig, acquire_voice_transcription_admission, acquire_slot, minute_policy, verdict_of,
  voice_refused-live,
}

abbrev bare : Environment
bare = record {
  max_messages_per_minute = nan;
  max_product_page_requests_per_minute = whole 0;
  max_address_updates_per_minute = whole 500;
  max_address_updates_per_hour = nan;
  max_model_history_messages = nan;
  max_image_bytes = nan;
  max_images_per_message = nan;
  max_ws_payload_bytes = whole 1;
  max_concurrent_model_requests = nan;
  max_queue_depth = nan;
  max_queue_wait_ms = nan;
  model_lease_ms = nan;
  address_update_lock_ms = nan;
}

abbrev clients : List (ℕ × Client ℕ)
clients =
    (1, record { session_id = 7; customer_id = 0 })
    ∷ (2, record { session_id = 8; customer_id = 5 })
    ∷ (3, record { session_id = 9; customer_id = 6 })
    ∷ []

abbrev keys : ActionGuard.Keys ℕ
keys = record { identity = 1; email = some 2; network = 3; everybody = 4 }

abbrev budgets : ImageAdmission.Config
budgets = record {
  cost_units_per_minute = whole 1;
  network_cost_units_per_minute = nan;
  global_cost_units_per_minute = nan;
}

abbrev identities : ImageAdmission.Identities ℕ
identities = record { client = 1; network = 2; everybody = 3 }

abbrev voice : VoiceConfig
voice = record { requests_per_minute = nan; timeout_ms = nan; max_concurrent_per_identity = nan }

abbrev taken : VoiceGuard.State ℕ ℕ
taken = record { rates = []; scopes = (7, (5, 1000) ∷ []) ∷ [] }
