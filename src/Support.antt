-- ===== src/Support.antt =====
-- support/support-broadcaster.js: what the sockets of a support conversation are sent. `isSocketOpen` is
-- an argument; an id that is missing or 0 is 0 for a customer and `none` for a conversation.
pub mod Reach
use magento2_chat_ai.Prelude.{
  ℕ, ◌+◌, Bool, true, false, ◌&&◌, ◌||◌, not, Option, none, some, List, [], ◌∷◌, ltb, ◌==◌,
  if◌then◌else◌, take,
}
use magento2_chat_ai.Text.{Text, codes, filled_or, text_eq}

pub record Client : Type 0 where
  pub is_support_admin : Bool
  pub customer_id : ℕ
  pub guest_history_id : Text
  pub support_conversation_id : Option ℕ
  pub active_support_conversation_id : Option ℕ

pub data Operation : Type 0 where
  edit delete : Operation

pub data Frame : Type 0 where
  support_message : ℕ → ℕ → Frame
  support_message_mutation : ℕ → ℕ → Operation → Text → Text → Text → Frame
  admin_typing : ℕ → Bool → Text → Frame
  customer_typing : ℕ → Bool → Frame
  support_mode : ℕ → Bool → Text → Frame

unfoldable pub is_conversation : ℕ → Option ℕ → Bool
is_conversation conversation_id none = false
is_conversation conversation_id (some id) = id == conversation_id

unfoldable pub matching_customer : ℕ → Text → Client → Bool
unfolding text_eq
matching_customer customer_id guest_id client =
    not client.is_support_admin
    && (if ltb 0 customer_id
        then client.customer_id == customer_id
        else client.customer_id == 0 && text_eq client.guest_history_id guest_id)

unfoldable pub matching_admin : ℕ → Client → Bool
unfolding is_conversation
matching_admin conversation_id client =
    client.is_support_admin && is_conversation conversation_id client.support_conversation_id

unfoldable pub active_customer : ℕ → Client → Bool
unfolding is_conversation
active_customer conversation_id client =
    not client.is_support_admin
    && is_conversation conversation_id client.active_support_conversation_id

module _ {K : Type 0} (is_open : K → Bool) where
  -- `broadcast` of a frame to those that it is for: what is sent, and the count of recipients.
  unfoldable pub broadcast : (Client → Bool) → Frame → List (K × Client) → List (K × Frame) × ℕ
  broadcast visitor frame [] = ([], 0)
  broadcast visitor frame ((socket, client) ∷ clients) =
      let (sent, recipients) = broadcast visitor frame clients in
      if visitor client && is_open socket
      then ((socket, frame) ∷ sent, recipients + 1)
      else (sent, recipients)

  module _ (client_data : List (K × Client)) where
    unfoldable pub broadcast_support_message : ℕ → ℕ → Text → ℕ → List (K × Frame) × ℕ
    unfolding broadcast matching_customer matching_admin
    broadcast_support_message conversation_id customer_id guest_id message_id =
        broadcast
          (λ client.
            matching_customer customer_id guest_id client || matching_admin conversation_id client)
          (support_message conversation_id message_id) client_data

    unfoldable pub mutation_content : Operation → Text → Text
    mutation_content edit content = content
    mutation_content delete content = []

    unfoldable pub broadcast_support_mutation :
        ℕ → ℕ → Text → ℕ → Operation → Text → Text → Text → List (K × Frame) × ℕ
    unfolding broadcast matching_customer matching_admin mutation_content
    broadcast_support_mutation conversation_id customer_id guest_id message_id operation content
          edited_at deleted_at =
        broadcast
          (λ client.
            matching_customer customer_id guest_id client || matching_admin conversation_id client)
          (support_message_mutation conversation_id message_id operation
            (mutation_content operation content) edited_at deleted_at)
          client_data

    unfoldable pub broadcast_support_typing_to_customers : ℕ → Bool → Text → List (K × Frame) × ℕ
    unfolding broadcast active_customer filled_or
    broadcast_support_typing_to_customers conversation_id typing agent_label =
        broadcast (active_customer conversation_id)
          (admin_typing conversation_id typing
            (if typing then take 80 (filled_or agent_label (codes "Support team")) else []))
          client_data

    unfoldable pub broadcast_support_typing_to_admins : ℕ → Bool → List (K × Frame) × ℕ
    unfolding broadcast matching_admin
    broadcast_support_typing_to_admins conversation_id typing =
        broadcast (matching_admin conversation_id) (customer_typing conversation_id typing)
          client_data

    unfoldable pub broadcast_support_message_to_admins : ℕ → ℕ → List (K × Frame) × ℕ
    unfolding broadcast matching_admin
    broadcast_support_message_to_admins conversation_id message_id =
        broadcast (matching_admin conversation_id) (support_message conversation_id message_id)
          client_data

    unfoldable pub broadcast_support_mode : ℕ → ℕ → Text → Bool → Text → List (K × Frame) × ℕ
    unfolding broadcast matching_customer
    broadcast_support_mode conversation_id customer_id guest_id active agent_label =
        broadcast (matching_customer customer_id guest_id)
          (support_mode conversation_id active (if active then take 80 agent_label else []))
          client_data
