-- ===== src/Examples/Ticket.antt =====
-- A ticket of a guest, and what becomes of it.
use magento2_chat_ai.JsNumber.{finite, whole}
use magento2_chat_ai.Prelude.{
  ℕ, ◌*◌, ◌≡◌, ◌⊎◌, refl, inr, true, false, Option, none, some, [], ◌∷◌, ◌++◌, arith,
}
use magento2_chat_ai.Security.Ticket.{
  accepted, customer, Header, Claims, CustomerSession, session_of, verify_web_socket_ticket,
  is_identity, token_audience, positive_integer,
}
use magento2_chat_ai.Security.Ticket.Accepted.{
  verify-accepted, customer-identified, Current, expires_at, IsCustomer,
}
use magento2_chat_ai.Security.Ticket.Issued.{verify-issued}
use magento2_chat_ai.Text.{Text, codes}

abbrev hex_64 : Text
hex_64 = codes "0123456789abcdef0123456789abcdef0123456789abcdef0123456789abcdef"

abbrev secret : Text
secret = codes "abcdefghijklmnopqrstuvwxyz012345"

abbrev header : Header
header = record { alg = codes "HS256"; typ = codes "JWT" }

abbrev guest_claims : Claims ℕ ℕ
guest_claims = record {
  aud = token_audience;
  jti = codes "t1";
  sid = codes "s1";
  iat = whole 100;
  exp = whole 160;
  role = codes "customer";
  aid = whole 0;
  name = [];
  sct = codes "x";
  scn = codes "PHPSESSID";
  sub = whole 0;
  tenant_id = [];
  gid = hex_64;
  catalog_scope = 1;
  page_context = 2;
}

abbrev guest_session : CustomerSession ℕ ℕ
guest_session = record {
  customer_id = none;
  session_id = codes "s1";
  guest_history_id = hex_64;
  session_cookie = codes "PHPSESSID=x";
  ticket_id = codes "t1";
  expires_at = 160000;
  tenant_id = [];
  catalog_scope = some 1;
  page_context = some 2;
}

abbrev session : Claims ℕ ℕ → Text → Option ℕ
session claims s = some 0

abbrev same : Text → Text
same s = s

abbrev keep_scope : Text → ℕ → Option ℕ
keep_scope tenant n = some n

abbrev hmac : Text → Text
hmac s = codes "c2ln"

abbrev ticket : Text
ticket = codes "aa.bb.c2ln"

verify-issued_example :
    verify_web_socket_ticket same same keep_scope some
      (λ p. some header)
      (λ p. some guest_claims)
      hmac
      secret
      120
      ticket
    ≡ session_of same same keep_scope some guest_claims
unfolding session_of verify_web_socket_ticket
verify-issued_example =
    verify-issued same same keep_scope some (λ p. some header) (λ p. some guest_claims) hmac secret
      (codes "aa") (codes "bb") 120 header guest_claims (omega arith) refl refl refl refl refl refl
      refl

verify-accepted_example :
    (h : Text) × (p : Text) × (claims : Claims ℕ ℕ) × (ticket
      ≡ h ++ b'.' ∷ (p ++ b'.' ∷ hmac (h ++ b'.' ∷ p)))
    × (◌≡◌ {A = Option (Claims ℕ ℕ)} (some guest_claims) (some claims))
    × Current 120 claims
    × (session_of same same keep_scope some claims ≡ accepted (customer guest_session))
    × (expires_at (customer guest_session) ≡ positive_integer claims.exp * 1000)
unfolding verify_web_socket_ticket
verify-accepted_example =
    verify-accepted same same keep_scope some (λ p. some header) (λ p. some guest_claims) hmac
      secret ticket 120 (customer guest_session) refl

customer-identified_example : IsCustomer none ⊎ (is_identity hex_64 ≡ true)
unfolding session_of
customer-identified_example =
    customer-identified same same keep_scope some guest_claims guest_session 0 refl (inr refl)

-- With a negative number the identity of the guest is not looked at.
abbrev negative_claims : Claims ℕ ℕ
negative_claims = record guest_claims { sub = finite true 1 false; gid = [] }

unidentified :
    session_of same same keep_scope some negative_claims
    ≡ accepted (customer (record guest_session { guest_history_id = [] }))
unfolding session_of
unidentified = refl
