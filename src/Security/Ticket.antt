-- ===== src/Security/Ticket.antt =====
-- `verifyWebSocketTicket` of ws-ticket.js. The hash, the decryption of the checkout session, the
-- decoding of a part and the normalisation of the catalog scope and the page are arguments.
pub mod Accepted
pub mod Issued
use magento2_chat_ai.JsNumber.{JsNumber, nan, infinite, finite}
use magento2_chat_ai.Prelude.{
  ℕ, ◌+◌, ◌*◌, Bool, true, false, not, ◌&&◌, ◌||◌, Option, none, some, List, [], ◌∷◌, ◌++◌, map,
  take, length, ltb, leb, ◌==◌, if◌then◌else◌,
}
use magento2_chat_ai.Text.{
  filled_or, Text, codes, between, filled, trim, text_eq, fold_case, split_unit, all_units,
}

pub data TicketError : Type 0 where
  secret_too_short malformed invalid_header invalid_signature expired_or_invalid : TicketError
  invalid_administrator invalid_checkout_session invalid_tenant invalid_guest : TicketError

-- What `verifyWebSocketTicket` throws, or returns.
pub data Verdict (A : Type 0) : Type 0 where
  rejected : TicketError → Verdict A
  accepted : A → Verdict A

-- `if (!test) throw error`.
abbrev pub check : Bool → TicketError → Verdict (Unit {0})
check test error = if test then accepted tt else rejected error

infixl 5 ◌>>=◌ ◌>>◌
abbrev pub ◌>>=◌ : {A B : Type 0} → Verdict A → (A → Verdict B) → Verdict B
◌>>=◌ verdict next = elim verdict [ accepted value ↦ next value | rejected error ↦ rejected error ]

abbrev pub ◌>>◌ : {B : Type 0} → Verdict (Unit {0}) → Verdict B → Verdict B
first >> next = first >>= λ _. next

abbrev pub token_audience : Text
token_audience = codes "afd-ai-websocket"

abbrev pub max_clock_skew_seconds : ℕ
max_clock_skew_seconds = 15

-- `header.alg` and `header.typ`; empty where they are no text.
pub record Header : Type 0 where
  pub alg : Text
  pub typ : Text

-- The claims: a text is `String(claim || '')`, empty where `aud` and `role` are no text, and a number
-- what `Number(claim || 0)` gives, `nan` where `iat` and `exp` are no number. `S` is the type of
-- catalog scopes, `C` that of page contexts.
pub record Claims (S C : Type 0) : Type 0 where
  pub aud : Text
  pub jti : Text
  pub sid : Text
  pub iat : JsNumber
  pub exp : JsNumber
  pub role : Text
  pub aid : JsNumber
  pub name : Text
  pub sct : Text
  pub scn : Text
  pub sub : JsNumber
  pub tenant_id : Text
  pub gid : Text
  pub catalog_scope : S
  pub page_context : C

pub record AdminSession : Type 0 where
  pub admin_id : ℕ
  pub admin_name : Text
  pub session_id : Text
  pub ticket_id : Text
  pub expires_at : ℕ

pub record CustomerSession (S C : Type 0) : Type 0 where
  pub customer_id : Option ℕ
  pub session_id : Text
  pub guest_history_id : Text
  pub session_cookie : Text
  pub ticket_id : Text
  pub expires_at : ℕ
  pub tenant_id : Text
  pub catalog_scope : Option S
  pub page_context : Option C

pub data Session (S C : Type 0) : Type 0 where
  support_admin : AdminSession → Session S C
  customer : CustomerSession S C → Session S C

-- `[a-f0-9]`, after the case was folded.
unfoldable pub is_hex : ℕ → Bool
unfolding between
is_hex c = between b'0' c b'9' || between b'a' c b'f'

unfoldable pub is_base64_url : ℕ → Bool
unfolding between
is_base64_url c =
    between b'0' c b'9' || between b'A' c b'Z' || between b'a' c b'z' || c == b'_' || c == b'-'

-- `/^[a-f0-9]{64}$/`.
unfoldable pub is_identity : Text → Bool
unfolding all_units is_hex
is_identity s = length s == 64 && all_units is_hex s

-- `/^[a-zA-Z0-9_-]+$/`.
unfoldable pub is_token : Text → Bool
unfolding filled all_units is_base64_url
is_token s = filled s && all_units is_base64_url s

-- `validSignature`; texts of this form are their own bytes.
unfoldable pub valid_signature : Text → Text → Bool
unfolding is_token text_eq
valid_signature signature expected = is_token signature && text_eq signature expected

-- `const [encodedHeader, encodedPayload, signature, ...rest] = ticket.split('.')` and its check.
unfoldable pub three_parts : List Text → Verdict (Text × Text × Text)
unfolding filled
three_parts (h ∷ p ∷ s ∷ []) =
    if filled h && filled p && filled s then accepted (h, p, s) else rejected malformed
three_parts _ = rejected malformed

unfoldable pub require : {A : Type 0} → Option A → TicketError → Verdict A
require none e = rejected e
require (some a) e = accepted a

unfoldable pub is_integer : JsNumber → Bool
is_integer (finite s n fraction) = not fraction
is_integer _ = false

-- `number > bound` and `number <= bound`, of an integer.
unfoldable pub exceeds : JsNumber → ℕ → Bool
exceeds (finite false n f) bound = ltb bound n
exceeds _ bound = false

unfoldable pub is_jwt_header : Header → Bool
unfolding text_eq
is_jwt_header h = text_eq h.alg (codes "HS256") && text_eq h.typ (codes "JWT")

-- A positive integer, and 0 for any other number.
unfoldable pub positive_integer : JsNumber → ℕ
positive_integer (finite false n false) = n
positive_integer _ = 0

-- `!value`, of a number.
unfoldable pub is_falsy : JsNumber → Bool
is_falsy nan = true
is_falsy (finite s n fraction) = n == 0 && not fraction
is_falsy (infinite s) = false

unfoldable pub lower : Text → Text
unfolding fold_case
lower = map fold_case

module _ {S C : Type 0} where
  unfoldable pub is_current : ℕ → Claims S C → Bool
  unfolding text_eq filled is_integer exceeds
  is_current now claims =
      text_eq claims.aud token_audience
      && filled claims.jti
      && filled claims.sid
      && is_integer claims.iat
      && is_integer claims.exp
      && not (exceeds claims.iat (now + max_clock_skew_seconds))
      && exceeds claims.exp now

  unfoldable pub admin_session : Claims S C → Verdict (Session S C)
  unfolding positive_integer filled_or trim
  admin_session claims =
      if positive_integer claims.aid == 0
      then rejected invalid_administrator
      else accepted (
          support_admin (record {
            admin_id = positive_integer claims.aid;
            admin_name =
                filled_or (take 80 (trim (filled_or claims.name (codes "Support team"))))
                  (codes "Support team");
            session_id = claims.sid;
            ticket_id = claims.jti;
            expires_at = positive_integer claims.exp * 1000;
          }))

  -- `decrypt` gives an empty text for a session that it cannot read.
  module _ (decrypt : Text → Text) (encode_uri_component : Text → Text)
      (normalize_catalog_scope : Text → S → Option S) (normalize_page_context : C → Option C) where
    unfoldable pub customer_session : Claims S C → Verdict (Session S C)
    unfolding filled trim is_identity is_falsy is_token positive_integer lower
    customer_session claims = do
      check (filled claims.sct && filled claims.scn) invalid_checkout_session
      let tenant_id = lower (trim claims.tenant_id)
      check (not (filled tenant_id) || is_identity tenant_id) invalid_tenant
      let guest_history_id = lower claims.gid
      check (not (is_falsy claims.sub) || is_identity guest_history_id) invalid_guest
      let checkout_session_id = decrypt claims.sct
      let name = trim claims.scn
      check (filled checkout_session_id && is_token name && leb (length name) 80)
          invalid_checkout_session
      accepted (
          customer (record {
            customer_id =
                if positive_integer claims.sub == 0
                then none
                else some (positive_integer claims.sub);
            session_id = claims.sid;
            guest_history_id = guest_history_id;
            session_cookie = name ++ b'=' ∷ encode_uri_component checkout_session_id;
            ticket_id = claims.jti;
            expires_at = positive_integer claims.exp * 1000;
            tenant_id = tenant_id;
            catalog_scope = normalize_catalog_scope tenant_id claims.catalog_scope;
            page_context = normalize_page_context claims.page_context;
          }))

    unfoldable pub session_of : Claims S C → Verdict (Session S C)
    unfolding text_eq admin_session customer_session
    session_of claims =
        if text_eq claims.role (codes "support_admin")
        then admin_session claims
        else customer_session claims

    module _ (parse_header : Text → Option Header) (parse_claims : Text → Option (Claims S C))
        (hmac : Text → Text) where
      unfoldable pub verify_web_socket_ticket : Text → ℕ → Text → Verdict (Session S C)
      unfolding split_unit three_parts require is_jwt_header valid_signature is_current session_of
      verify_web_socket_ticket secret now ticket = do
        check (leb 32 (length secret)) secret_too_short
        parts ← three_parts (split_unit b'.' ticket)
        header ← require (parse_header parts.0) invalid_header
        claims ← require (parse_claims parts.1) invalid_header
        check (is_jwt_header header) invalid_header
        check (valid_signature parts.2 (hmac (parts.0 ++ b'.' ∷ parts.1))) invalid_signature
        check (is_current now claims) expired_or_invalid
        session_of claims
