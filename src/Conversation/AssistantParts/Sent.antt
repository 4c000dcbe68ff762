-- ===== src/Conversation/AssistantParts/Sent.antt =====
-- message-parts.js: the text of an answer is the text that went out.
use magento2_chat_ai.Conversation.AssistantParts.{
  Part, text_part, products, image, guest_order_access, reasoning, Message, chunk,
  discard_thinking_text, products_html, image_generated, guest_order_access_required, tool_activity,
  other_message, is_products, is_reasoning, append_chunk, replace_last_products, put_products,
  update_reasoning, put_activity, image_of, record_outbound_assistant_part, record_all,
  ToolActivity,
}
use magento2_chat_ai.Prelude.{
  ℕ, suc, ◌≡◌, refl, sym, ap, append-nil, append_assoc, ◌∙◌, true, false, inl, inr, List, [], ◌∷◌,
  ◌++◌, any, Bool-cases,
}
use magento2_chat_ai.Text.{Text, filled}

-- The text of an answer, from its parts and from the chunks that went out.
abbrev pub text_of : Part → Text
text_of (text_part raw) = raw
text_of _ = []

unfoldable pub texts : List Part → Text
texts [] = []
texts (p ∷ ps) = text_of p ++ texts ps

unfoldable pub sent_text : List Message → Text
sent_text [] = []
sent_text (chunk content ∷ ms) = content ++ sent_text ms
sent_text (m ∷ ms) = sent_text ms

abbrev pub NoDiscard : List Message → Type 0
NoDiscard [] = Unit {0}
NoDiscard (discard_thinking_text ∷ ms) = ⊥
NoDiscard (m ∷ ms) = NoDiscard ms

texts-append : (p : Part) (ps : List Part) → texts (ps ++ p ∷ []) ≡ texts ps ++ text_of p
unfolding texts
texts-append p [] = append-nil (text_of p)
texts-append p (r ∷ ps) =
    ap (λ (t : Text). text_of r ++ t) (texts-append p ps)
    ∙ sym (append_assoc (text_of r) (texts ps) (text_of p))

texts-chunk : (c : Text) (ps : List Part) → texts (append_chunk c ps) ≡ texts ps ++ c
unfolding texts append_chunk
texts-chunk c [] = append-nil c
texts-chunk c (text_part raw ∷ []) =
    append-nil (raw ++ c) ∙ ap (λ (t : Text). t ++ c) (sym (append-nil raw))
texts-chunk c (products html payload ∷ []) = append-nil c
texts-chunk c (image i ∷ []) = append-nil c
texts-chunk c (guest_order_access s e ∷ []) = append-nil c
texts-chunk c (reasoning r ∷ []) = append-nil c
texts-chunk c (p ∷ r ∷ ps) =
    ap (λ (t : Text). text_of p ++ t) (texts-chunk c (r ∷ ps))
    ∙ sym (append_assoc (text_of p) (texts (r ∷ ps)) c)

products-text_of : (p : Part) → is_products p ≡ true → text_of p ≡ []
unfolding is_products
products-text_of (text_part raw) h = cc
products-text_of (products html payload) h = refl
products-text_of (image i) h = cc
products-text_of (guest_order_access s e) h = cc
products-text_of (reasoning r) h = cc

texts-replace :
    (part : Part) (ps : List Part)
    → is_products part ≡ true
    → texts (replace_last_products part ps) ≡ texts ps
unfolding texts replace_last_products
texts-replace part [] e = refl
texts-replace part (p ∷ ps) e = elim (Bool-cases (any is_products ps)) [
  | inl later ↦ rw later (ap (λ (t : Text). text_of p ++ t) (texts-replace part ps e))
  | inr last ↦ elim (Bool-cases (is_products p)) [
    | inl found ↦
        rw (last, found)
          (ap (λ (t : Text). t ++ texts ps)
            (products-text_of part e ∙ sym (products-text_of p found)))
    | inr other ↦ rw (last, other) refl
  ]
]

texts-update :
    (m : ToolActivity) (ref : ℕ) (ps : List Part) → texts (update_reasoning m ref ps) ≡ texts ps
unfolding texts update_reasoning
texts-update m ref [] = refl
texts-update m ref (reasoning r ∷ ps) = refl
texts-update m ref (text_part raw ∷ ps) = ap (λ (t : Text). raw ++ t) (texts-update m ref ps)
texts-update m ref (products html payload ∷ ps) = texts-update m ref ps
texts-update m ref (image i ∷ ps) = texts-update m ref ps
texts-update m ref (guest_order_access s e ∷ ps) = texts-update m ref ps

-- What a message adds to the text.
abbrev text_sent : Message → Text
text_sent (chunk content) = content
text_sent _ = []

texts-same : (ps qs : List Part) → texts ps ≡ texts qs → texts ps ≡ texts qs ++ []
texts-same ps qs e = e ∙ sym (append-nil (texts qs))

empty-filled : (c : Text) → filled c ≡ false → c ≡ []
unfolding filled
empty-filled [] h = refl
empty-filled (x ∷ c) h = cc

step-texts :
    (m : Message) (ref : ℕ) (ps : List Part)
    → NoDiscard (m ∷ [])
    → texts (record_outbound_assistant_part m ref ps) ≡ texts ps ++ text_sent m
unfolding record_outbound_assistant_part put_products put_activity
step-texts (chunk content) ref ps k = elim (Bool-cases (filled content)) [
  | inl some_text ↦ rw some_text (texts-chunk content ps)
  | inr no_text ↦ rw no_text (
      sym (ap (λ (t : Text). texts ps ++ t) (empty-filled content no_text) ∙ append-nil (texts ps)))
]
step-texts discard_thinking_text ref ps k = absurd k
step-texts (products_html html payload) ref ps k = elim (Bool-cases (filled html)) [
  | inl given ↦ elim (Bool-cases (any is_products ps)) [
    | inl old ↦
        rw (given, old)
          (texts-same (replace_last_products (products html payload) ps) ps
            (texts-replace (products html payload) ps (unfold is_products in refl)))
    | inr first ↦ rw (given, first) (texts-append (products html payload) ps)
  ]
  | inr absent ↦ rw absent (texts-same ps ps refl)
]
step-texts (image_generated m) ref ps k = elim (Bool-cases (filled m.url)) [
  | inl given ↦ rw given (texts-append (image (image_of m)) ps)
  | inr absent ↦ rw absent (texts-same ps ps refl)
]
step-texts (guest_order_access_required s e) ref ps k = texts-append (guest_order_access s e) ps
step-texts (tool_activity m) ref ps k = elim (Bool-cases (filled m.tool)) [
  | inl given ↦ elim (Bool-cases (any is_reasoning ps)) [
    | inl old ↦ rw (given, old) (texts-same (update_reasoning m ref ps) ps (texts-update m ref ps))
    | inr first ↦ rw (given, first) (unfold texts in texts-same ps ps refl)
  ]
  | inr absent ↦ rw absent (texts-same ps ps refl)
]
step-texts other_message ref ps k = texts-same ps ps refl

sent-cons : (m : Message) (ms : List Message) → sent_text (m ∷ ms) ≡ text_sent m ++ sent_text ms
unfolding sent_text
sent-cons (chunk content) ms = refl
sent-cons _ ms = refl

NoDiscard-cons :
    (m : Message) (ms : List Message) → NoDiscard (m ∷ ms) → NoDiscard (m ∷ []) × NoDiscard ms
NoDiscard-cons discard_thinking_text ms k = absurd k
NoDiscard-cons _ ms k = (tt, k)

record_all-texts_from :
    (ms : List Message) (ref : ℕ) (ps : List Part)
    → NoDiscard ms
    → texts (record_all ms ref ps) ≡ texts ps ++ sent_text ms
unfolding record_all
record_all-texts_from [] ref ps k = unfold sent_text in sym (append-nil (texts ps))
record_all-texts_from (m ∷ ms) ref ps k =
    let (now, later) = NoDiscard-cons m ms k in
    record_all-texts_from ms (suc ref) (record_outbound_assistant_part m ref ps) later
    ∙ ap (λ (t : Text). t ++ sent_text ms) (step-texts m ref ps now)
    ∙ append_assoc (texts ps) (text_sent m) (sent_text ms)
    ∙ ap (λ (t : Text). texts ps ++ t) (sym (sent-cons m ms))

-- Where no message takes text back, the texts among the parts of an answer, put together, are the
-- chunks that went out, in their order, whatever else went out between them.
pub record_all-texts :
    (ms : List Message) (ref : ℕ) → NoDiscard ms → texts (record_all ms ref []) ≡ sent_text ms
unfolding texts
record_all-texts ms ref k = record_all-texts_from ms ref [] k
