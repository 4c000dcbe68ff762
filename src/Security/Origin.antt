-- ===== src/Security/Origin.antt =====
-- `isAllowedWebSocketOrigin` of websocket-security.js. An origin that `toOrigin` does not accept is
-- none; `is_production` and `allow_non_browser` are the two variables of the environment.
use magento2_chat_ai.Prelude.{Bool, true, false, not, ◌||◌, Option, none, some, List, [], ◌∷◌, ite}

module _ {O : Type 0} (dec : Discrete O) where
  unfoldable pub is_member : O → List O → Bool
  is_member origin [] = false
  is_member origin (o ∷ os) = ite (dec origin o) true (is_member origin os)

  unfoldable pub is_allowed_web_socket_origin : Bool → Bool → Option O → List O → Bool
  unfolding is_member
  is_allowed_web_socket_origin is_production allow_non_browser none allowed =
      not is_production || allow_non_browser
  is_allowed_web_socket_origin is_production allow_non_browser (some origin) allowed =
      is_member origin allowed
