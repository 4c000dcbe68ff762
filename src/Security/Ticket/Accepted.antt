-- ===== src/Security/Ticket/Accepted.antt =====
-- ws-ticket.js: what an accepted ticket was.
use magento2_chat_ai.JsNumber.{JsNumber, nan, infinite, finite, whole}
use magento2_chat_ai.Prelude.{
  ℕ, zero, suc, subst, ◌*◌, ◌<◌, ◌≤◌, ◌≡◌, ◌⊎◌, refl, sym, ap, ◌∙◌, Bool, true, false, not, ◌&&◌,
  ◌||◌, inl, inr, Option, none, some, List, [], ◌∷◌, ◌++◌, length, leb, ◌==◌, arith, if◌then◌else◌,
  Bool-cases,
}
use magento2_chat_ai.Security.Ticket.{
  Verdict, accepted, rejected, TicketError, ◌>>=◌, check, Header, Claims, Session, CustomerSession,
  support_admin, customer, three_parts, require, is_jwt_header, valid_signature, is_current,
  session_of, verify_web_socket_ticket, token_audience, is_integer, exceeds, invalid_header,
  is_identity, positive_integer, admin_session, customer_session, is_falsy,
}
use magento2_chat_ai.Text.{Text, text_eq_iff, filled, split_unit}
use magento2_chat_ai.Text.Split.{join_unit, join-split}

bind-accepted :
    {A B : Type 0} (verdict : Verdict A) (next : A → Verdict B) {b : B}
    → (verdict >>= next) ≡ accepted b
    → (value : A) × (verdict ≡ accepted value) × (next value ≡ accepted b)
bind-accepted (rejected error) next h = cc
bind-accepted (accepted value) next h = (value, refl, h)

check-accepted :
    (test : Bool) (error : TicketError) {u : Unit {0}} → check test error ≡ accepted u → test ≡ true
check-accepted false error h = cc
check-accepted true error h = refl

require-accepted :
    {A : Type 0} (o : Option A) (e : TicketError) {a : A} → require o e ≡ accepted a → o ≡ some a
unfolding require
require-accepted none e h = cc
require-accepted (some a) e h = cc

three_parts-accepted :
    (ps : List Text) {h p s : Text} → three_parts ps ≡ accepted (h, p, s) → ps ≡ h ∷ p ∷ s ∷ []
unfolding three_parts
three_parts-accepted [] e = cc
three_parts-accepted (a ∷ []) e = cc
three_parts-accepted (a ∷ b ∷ []) e = cc
three_parts-accepted (a ∷ b ∷ c ∷ d ∷ ps) e = cc
three_parts-accepted (a ∷ b ∷ c ∷ []) e = elim (Bool-cases (filled a && filled b && filled c)) [
  | inl f ↦ ground arith
  | inr f ↦ ground arith
]

signature-eq : (s expected : Text) → valid_signature s expected ≡ true → s ≡ expected
unfolding valid_signature
signature-eq s expected h = ground (arith, text_eq_iff s expected)

exceeds-positive :
    (x : JsNumber) (now : ℕ) → is_integer x ≡ true → exceeds x now ≡ true → now < positive_integer x
unfolding is_integer exceeds positive_integer
exceeds-positive nan now h k = cc
exceeds-positive (infinite n) now h k = cc
exceeds-positive (finite true n f) now h k = cc
exceeds-positive (finite false n true) now h k = cc
exceeds-positive (finite false n false) now h k = ground arith

-- The number of a customer that a session holds.
abbrev pub customer_id_of : JsNumber → Option ℕ
customer_id_of x = if positive_integer x == 0 then none else some (positive_integer x)

-- There is a number of at least 1.
abbrev pub IsCustomer : Option ℕ → Type 0
IsCustomer none = ⊥
IsCustomer (some n) = 1 ≤ n

whole-identified :
    (n : ℕ) (guest : Bool)
    → (not (is_falsy (whole n)) || guest) ≡ true
    → IsCustomer (customer_id_of (whole n)) ⊎ (guest ≡ true)
unfolding is_falsy positive_integer
whole-identified zero guest h = inr h
whole-identified (suc n) guest h =
    let e : customer_id_of (whole (suc n)) ≡ some (suc n) = ground arith in
    inl (subst IsCustomer (sym e) (omega arith))

identified :
    (x : JsNumber) (n : ℕ) (guest : Bool)
    → (x ≡ nan) ⊎ (x ≡ whole n)
    → (not (is_falsy x) || guest) ≡ true
    → IsCustomer (customer_id_of x) ⊎ (guest ≡ true)
unfolding is_falsy
identified x n guest (inl e) h = inr (ap (λ (y : JsNumber). not (is_falsy y) || guest) (sym e) ∙ h)
identified x n guest (inr e) h =
    subst (λ (y : JsNumber). IsCustomer (customer_id_of y) ⊎ (guest ≡ true)) (sym e)
      (whole-identified n guest (ap (λ (y : JsNumber). not (is_falsy y) || guest) (sym e) ∙ h))

module _ {S C : Type 0} where
  -- The end of a session, in milliseconds.
  abbrev pub expires_at : Session S C → ℕ
  expires_at (support_admin a) = a.expires_at
  expires_at (customer c) = c.expires_at

  -- For this audience, with its ids, and not yet run out.
  abbrev pub Current : ℕ → Claims S C → Type 0
  Current now claims =
      (claims.aud ≡ token_audience)
      × (filled claims.jti ≡ true)
      × (filled claims.sid ≡ true)
      × (now < positive_integer claims.exp)

  is_current-Current :
      (now : ℕ) (claims : Claims S C) → is_current now claims ≡ true → Current now claims
  unfolding is_current
  is_current-Current now claims h =
      ground (arith, text_eq_iff claims.aud token_audience, exceeds-positive claims.exp now)

  module _ (decrypt : Text → Text) (encode_uri_component : Text → Text)
      (normalize_catalog_scope : Text → S → Option S) (normalize_page_context : C → Option C) where
    session_of-expires :
        (claims : Claims S C) (session : Session S C)
        → session_of decrypt encode_uri_component normalize_catalog_scope normalize_page_context
            claims
          ≡ accepted session
        → expires_at session ≡ positive_integer claims.exp * 1000
    unfolding session_of admin_session customer_session
    session_of-expires claims (support_admin a) h = ground arith
    session_of-expires claims (customer c) h = ground arith

    module _ (parse_header : Text → Option Header) (parse_claims : Text → Option (Claims S C))
        (hmac : Text → Text) where
      -- A ticket that is accepted consists of three parts, of which the last is the hash of the two
      -- before it; its claims are for this audience and not yet run out, and the session is the one
      -- that they describe, to their end.
      pub verify-accepted :
          (secret ticket : Text) (now : ℕ) (session : Session S C)
          → verify_web_socket_ticket decrypt encode_uri_component normalize_catalog_scope
              normalize_page_context parse_header parse_claims hmac secret now ticket
            ≡ accepted session
          → (h : Text) × (p : Text) × (claims : Claims S C) × (ticket
              ≡ h ++ b'.' ∷ (p ++ b'.' ∷ hmac (h ++ b'.' ∷ p)))
            × (parse_claims p ≡ some claims)
            × Current now claims
            × (session_of decrypt encode_uri_component normalize_catalog_scope
                  normalize_page_context claims
                ≡ accepted session)
            × (expires_at session ≡ positive_integer claims.exp * 1000)
      unfolding verify_web_socket_ticket
      verify-accepted secret ticket now session e =
          let (_, _, e₁) =
            bind-accepted (check (leb 32 (length secret)) TicketError.secret_too_short) _ e in
          let (parts, split, e₂) = bind-accepted (three_parts (split_unit b'.' ticket)) _ e₁ in
          let (header, _, e₃) =
            bind-accepted (require (parse_header parts.0) invalid_header) _ e₂ in
          let (claims, parsed, e₄) =
            bind-accepted (require (parse_claims parts.1) invalid_header) _ e₃ in
          let (_, _, e₅) = bind-accepted (check (is_jwt_header header) invalid_header) _ e₄ in
          let signed = valid_signature parts.2 (hmac (parts.0 ++ b'.' ∷ parts.1)) in
          let (_, checked, e₆) = bind-accepted (check signed TicketError.invalid_signature) _ e₅ in
          let (_, current, e₇) =
            bind-accepted (check (is_current now claims) TicketError.expired_or_invalid) _ e₆ in
          let signature =
            signature-eq parts.2 (hmac (parts.0 ++ b'.' ∷ parts.1))
              (check-accepted signed _ checked) in
          let pieces = three_parts-accepted (split_unit b'.' ticket) split in
          (
            parts.0,
            parts.1,
            claims,
            sym (join-split b'.' ticket)
                ∙ ap (join_unit b'.') pieces
                ∙ unfold join_unit in
                  ap (λ (r : Text). parts.0 ++ b'.' ∷ (parts.1 ++ b'.' ∷ r)) signature,
            require-accepted (parse_claims parts.1) _ parsed,
            is_current-Current now claims (check-accepted (is_current now claims) _ current),
            e₇,
            session_of-expires claims session e₇,
          )

    session_of-customer :
        (claims : Claims S C) (c : CustomerSession S C)
        → session_of decrypt encode_uri_component normalize_catalog_scope normalize_page_context
            claims
          ≡ accepted (customer c)
        → (c.customer_id ≡ customer_id_of claims.sub)
          × ((not (is_falsy claims.sub) || is_identity c.guest_history_id) ≡ true)
    unfolding session_of admin_session customer_session
    session_of-customer claims c h = ground arith

    -- Where the number of the customer is whole and not negative, or none, whoever is accepted as a
    -- customer has a number of at least 1 or a guest identity of 64 hexadecimal digits.
    pub customer-identified :
        (claims : Claims S C) (c : CustomerSession S C) (n : ℕ)
        → session_of decrypt encode_uri_component normalize_catalog_scope normalize_page_context
            claims
          ≡ accepted (customer c)
        → (claims.sub ≡ nan) ⊎ (claims.sub ≡ whole n)
        → IsCustomer c.customer_id ⊎ (is_identity c.guest_history_id ≡ true)
    customer-identified claims c n h w =
        let (number, checked) = session_of-customer claims c h in
        subst (λ (o : Option ℕ). IsCustomer o ⊎ (is_identity c.guest_history_id ≡ true))
          (sym number) (identified claims.sub n (is_identity c.guest_history_id) w checked)
