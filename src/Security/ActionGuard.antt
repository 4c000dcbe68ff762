-- ===== src/Security/ActionGuard.antt =====
-- `guardWebSocketAction` of websocket-action-guard.js. The table of policies is a function of the
-- action; keys are built from identities, and an email that is not well formed is none.

use magento2_chat_ai.JsNumber.{whole}
use magento2_chat_ai.Prelude.{
  ℕ, ◌≡◌, Bool, true, false, not, ◌&&◌, Option, none, some, List, [], ◌∷◌, find, or_else,
  if◌then◌else◌, arith,
}
use magento2_chat_ai.Runtime.RateLimit.{Admission, Policy, Rates, consume_rate_limit}

-- The actions of `ACTION_POLICIES`; `unknown` is any other name.
pub data Action : Type 0 where
  guest_order_request_otp guest_order_verify_otp support_portal_load support_ticket_create : Action
  support_subscribe support_typing support_message_edit support_message_delete new_chat : Action
  reset_guest_history list_conversations load_conversation delete_conversation : Action
  rename_conversation cancel_chat cart_add_result cart_mutation_result voice_transcribe : Action
  live_voice_session live_voice_save_turn live_voice_tool_call chat load_product_page : Action
  order_address_update customer_address_update unknown : Action

abbrev pub policy : ℕ → ℕ → Policy
policy limit window_ms = record {
  limit = whole limit;
  window_ms = whole window_ms;
  amount = whole 1;
}

unfoldable pub action_policy : Action → Option Policy
action_policy guest_order_request_otp = some (policy 5 900000)
action_policy guest_order_verify_otp = some (policy 10 600000)
action_policy support_portal_load = some (policy 30 60000)
action_policy support_ticket_create = some (policy 5 3600000)
action_policy support_subscribe = some (policy 60 60000)
action_policy support_typing = some (policy 180 60000)
action_policy support_message_edit = some (policy 30 60000)
action_policy support_message_delete = some (policy 30 60000)
action_policy new_chat = some (policy 10 60000)
action_policy reset_guest_history = some (policy 5 60000)
action_policy list_conversations = some (policy 30 60000)
action_policy load_conversation = some (policy 30 60000)
action_policy delete_conversation = some (policy 15 60000)
action_policy rename_conversation = some (policy 20 60000)
action_policy cancel_chat = some (policy 30 60000)
action_policy cart_add_result = some (policy 60 60000)
action_policy cart_mutation_result = some (policy 60 60000)
action_policy voice_transcribe = some (policy 12 60000)
action_policy live_voice_session = some (policy 6 60000)
action_policy live_voice_save_turn = some (policy 24 60000)
action_policy live_voice_tool_call = some (policy 30 60000)
action_policy chat = some (policy 30 60000)
action_policy load_product_page = some (policy 30 60000)
action_policy order_address_update = some (policy 5 60000)
action_policy customer_address_update = some (policy 5 60000)
action_policy unknown = none

unfoldable pub is_otp_request : Action → Bool
is_otp_request guest_order_request_otp = true
is_otp_request action = false

-- The counters of a request: of the identity and the action, of the email if it is well formed, of
-- the network and of everybody.
pub record Keys (K : Type 0) : Type 0 where
  pub identity : K
  pub email : Option K
  pub network : K
  pub everybody : K

abbrev pub unknown_action : Admission
unknown_action = record { allowed = false; count = 0; retry_after_ms = 0 }

-- `admissions.find((admission) => !admission.allowed) || identityAdmission`.
unfoldable pub first_blocked : List Admission → Admission → Admission
unfolding find
first_blocked admissions identity = or_else (find (λ a. not a.allowed) admissions) identity

module _ {K : Type 0} (dec : Discrete K) where
  -- The three calls of `Promise.all`, in order.
  unfoldable pub otp_checks : ℕ → K → Keys K → Rates K → List Admission × Rates K
  otp_checks now email keys m =
      let (a, m₁) = consume_rate_limit dec now (policy 3 900000) email m in
      let (b, m₂) = consume_rate_limit dec now (policy 20 900000) keys.network m₁ in
      let (c, m₃) = consume_rate_limit dec now (policy 250 900000) keys.everybody m₂ in
      (a ∷ b ∷ c ∷ [], m₃)

  unfoldable pub after_identity : ℕ → Option K → Keys K → Admission → Rates K → Admission × Rates K
  unfolding otp_checks first_blocked
  after_identity now none keys identity m = (identity, m)
  after_identity now (some email) keys identity m =
      let (admissions, m') = otp_checks now email keys m in (first_blocked admissions identity, m')

  unfoldable pub guard_policy : ℕ → Bool → Option Policy → Keys K → Rates K → Admission × Rates K
  unfolding after_identity
  guard_policy now is_otp none keys m = (unknown_action, m)
  guard_policy now is_otp (some p) keys m =
      let (identity, m') = consume_rate_limit dec now p keys.identity m in
      let checked = after_identity now keys.email keys identity m' in
      if identity.allowed && is_otp then checked else (identity, m')

  unfoldable pub guard_web_socket_action : ℕ → Action → Keys K → Rates K → Admission × Rates K
  unfolding guard_policy action_policy is_otp_request
  guard_web_socket_action now action keys m =
      guard_policy now (is_otp_request action) (action_policy action) keys m

  -- A request for a one-time password with a well-formed email is let through exactly when its
  -- identity, its email, its network and the whole gateway all have room, each counted in turn.
  pub otp-allowed :
      (now : ℕ) (keys : Keys K) (email : K) (m : Rates K)
      → keys.email ≡ some email
      → let (i, m₁) = consume_rate_limit dec now (policy 5 900000) keys.identity m in
        let (a, m₂) = consume_rate_limit dec now (policy 3 900000) email m₁ in
        let (b, m₃) = consume_rate_limit dec now (policy 20 900000) keys.network m₂ in
        let (c, m₄) = consume_rate_limit dec now (policy 250 900000) keys.everybody m₃ in
        (guard_web_socket_action now guest_order_request_otp keys m).0.allowed
        ≡ (i.allowed && (a.allowed && (b.allowed && c.allowed)))
  unfolding guard_web_socket_action guard_policy after_identity otp_checks first_blocked find
      action_policy is_otp_request
  otp-allowed now keys email m known = rw known (ground arith)
