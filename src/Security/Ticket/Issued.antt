-- ===== src/Security/Ticket/Issued.antt =====
-- ws-ticket.js: a ticket that was issued is accepted.
use magento2_chat_ai.Prelude.{
  ℕ, ◌≤◌, ◌≡◌, refl, ap, ◌∙◌, true, Option, some, List, [], ◌∷◌, ◌++◌, length, leb, arith,
}
use magento2_chat_ai.Security.Ticket.{
  accepted, Header, Claims, three_parts, is_jwt_header, valid_signature, is_current, session_of,
  verify_web_socket_ticket, is_token, is_base64_url,
}
use magento2_chat_ai.Text.{Text, text_eq_iff, filled, split_unit, all_units}
use magento2_chat_ai.Text.Split.{Lacks, split-append_piece, split-piece}

-- A part of the form of a hash holds no dot.
units-Lacks : (s : Text) → all_units is_base64_url s ≡ true → Lacks b'.' s
unfolding all_units is_base64_url
units-Lacks [] h = tt
units-Lacks (c ∷ s) h = (ground arith, units-Lacks s (ground arith))

token-filled : (s : Text) → is_token s ≡ true → filled s ≡ true
unfolding is_token
token-filled s h = ground arith

token-Lacks : (s : Text) → is_token s ≡ true → Lacks b'.' s
unfolding is_token
token-Lacks s h = units-Lacks s (ground arith)

three_parts_lem :
    (h p s : Text)
    → is_token h ≡ true
    → is_token p ≡ true
    → is_token s ≡ true
    → three_parts (split_unit b'.' (h ++ b'.' ∷ (p ++ b'.' ∷ s))) ≡ accepted (h, p, s)
three_parts_lem h p s a b c =
    let pieces : split_unit b'.' (h ++ b'.' ∷ (p ++ b'.' ∷ s)) ≡ h ∷ p ∷ s ∷ [] =
      split-append_piece b'.' h (p ++ b'.' ∷ s) (token-Lacks h a)
      ∙ ap (λ (r : List Text). h ∷ r) (split-append_piece b'.' p s (token-Lacks p b))
      ∙ ap (λ (r : List Text). h ∷ p ∷ r) (split-piece b'.' s (token-Lacks s c)) in
    ap three_parts pieces ∙ whole_parts
  where
    whole_parts : three_parts (h ∷ p ∷ s ∷ []) ≡ accepted (h, p, s)
    whole_parts =
        unfold three_parts in rw (token-filled h a, token-filled p b, token-filled s c) refl

own_signature : (s : Text) → is_token s ≡ true → valid_signature s s ≡ true
unfolding valid_signature
own_signature s h = rw (h, (text_eq_iff s s).1 refl) refl

module _ {S C : Type 0} (decrypt : Text → Text) (encode_uri_component : Text → Text)
    (normalize_catalog_scope : Text → S → Option S) (normalize_page_context : C → Option C)
    (parse_header : Text → Option Header) (parse_claims : Text → Option (Claims S C))
    (hmac : Text → Text) where
  -- With a secret that is long enough, a ticket whose three parts have the form of base64url, whose
  -- header and claims are well formed and current, and whose last part is the hash of the others,
  -- gives the session that its claims describe, or the error that they give.
  pub verify-issued :
      (secret h p : Text) (now : ℕ) (header : Header) (claims : Claims S C)
      → 32 ≤ length secret
      → is_token h ≡ true
      → is_token p ≡ true
      → is_token (hmac (h ++ b'.' ∷ p)) ≡ true
      → parse_header h ≡ some header
      → parse_claims p ≡ some claims
      → is_jwt_header header ≡ true
      → is_current now claims ≡ true
      → verify_web_socket_ticket decrypt encode_uri_component normalize_catalog_scope
          normalize_page_context parse_header parse_claims hmac secret now
          (h ++ b'.' ∷ (p ++ b'.' ∷ hmac (h ++ b'.' ∷ p)))
        ≡ session_of decrypt encode_uri_component normalize_catalog_scope normalize_page_context
            claims
  unfolding verify_web_socket_ticket
  verify-issued secret h p now header claims long a b c e f jwt current =
      let long_enough : leb 32 (length secret) ≡ true = ground arith in
      let parts = three_parts_lem h p (hmac (h ++ b'.' ∷ p)) a b c in
      let signed = own_signature (hmac (h ++ b'.' ∷ p)) c in
      rw long_enough (rw parts (rw e (rw f (rw jwt (rw signed (rw current refl))))))
