-- ===== src/Security/Lifecycle.antt =====
-- `createConnectionLifecycle` of connection-lifecycle.js: what closing a connection does, as a list
-- of calls in their order. A client is looked up by its socket.
use magento2_chat_ai.JsMap
use magento2_chat_ai.Prelude.{
  ℕ, ◌≡◌, refl, Bool, Option, none, some, List, [], ◌∷◌, ◌++◌, leb, if◌then◌else◌,
}

-- The conversations are numbers, with 0 for none.
pub record Client : Type 0 where
  pub is_support_admin : Bool
  pub support_conversation_id : ℕ
  pub active_support_conversation_id : ℕ

pub data Metric : Type 0 where
  websocket_disconnected websocket_error : Metric

pub data Effect (S : Type 0) : Type 0 where
  typing_to_customers typing_to_admins : ℕ → Effect S
  cancel_active_run reject_browser_cart delete_client : S → Effect S
  increment : Metric → Effect S

unfoldable pub admins_typing : {S : Type 0} → Client → List (Effect S)
admins_typing c =
    if leb c.active_support_conversation_id 0
    then []
    else typing_to_admins c.active_support_conversation_id ∷ []

unfoldable pub customers_typing : {S : Type 0} → Client → List (Effect S)
unfolding admins_typing
customers_typing c =
    if leb c.support_conversation_id 0
    then admins_typing c
    else typing_to_customers c.support_conversation_id ∷ []

unfoldable pub clear_support_typing : {S : Type 0} → Option Client → List (Effect S)
unfolding admins_typing customers_typing
clear_support_typing none = []
clear_support_typing (some c) = if c.is_support_admin then customers_typing c else admins_typing c

module _ {S : Type 0} (dec : Discrete S) where
  unfoldable pub cleanup : S → Metric → List (S × Client) → List (Effect S) × List (S × Client)
  unfolding clear_support_typing
  cleanup ws metric clients = (
    clear_support_typing (JsMap.get dec ws clients)
        ++ cancel_active_run ws ∷ reject_browser_cart ws ∷ delete_client ws ∷ increment metric ∷ [],
    JsMap.delete dec ws clients,
  )

  unfoldable pub handle_close : S → List (S × Client) → List (Effect S) × List (S × Client)
  unfolding cleanup
  handle_close ws = cleanup ws websocket_disconnected

  unfoldable pub handle_error : S → List (S × Client) → List (Effect S) × List (S × Client)
  unfolding cleanup
  handle_error ws = cleanup ws websocket_error

  -- When an error is followed by the close of the same socket, the close tells nobody about typing
  -- again and leaves the other clients as the error left them.
  pub close-after_error :
      (ws : S) (clients : List (S × Client))
      → let w = (handle_error ws clients).1 in
        handle_close ws w ≡ (
          cancel_active_run ws
              ∷ reject_browser_cart ws
              ∷ delete_client ws
              ∷ increment websocket_disconnected
              ∷ [],
          w,
        )
  unfolding handle_error handle_close cleanup clear_support_typing
  close-after_error ws clients =
      let gone = JsMap.get-delete_self dec ws clients in
      rw (gone, JsMap.delete_absent dec ws (JsMap.delete dec ws clients) gone) refl
