-- ===== src/Conversation/AssistantParts/Shape.antt =====
-- message-parts.js: how the parts of an answer stand, whatever messages went out.
use magento2_chat_ai.Conversation.AssistantParts.{
  Part, text_part, products, image, guest_order_access, reasoning, Message, chunk,
  discard_thinking_text, products_html, image_generated, guest_order_access_required, tool_activity,
  other_message, is_text, is_products, is_reasoning, is_stop, append_chunk,
  discard_latest_thinking_text, replace_last_products, put_products, update_reasoning, put_activity,
  image_of, record_outbound_assistant_part, ToolActivity, record_activity,
}
use magento2_chat_ai.Prelude.{
  ℕ, ◌≡◌, refl, sym, subst, Bool, true, false, ◌&&◌, inl, inr, List, [], ◌∷◌, ◌++◌, any, Bool-cases,
  arith,
}
use magento2_chat_ai.Text.{Text, filled}

-- No text follows a text.
abbrev pub Apart : Bool → List Part → Type 0
Apart after_text [] = Unit {0}
Apart after_text (p ∷ ps) = ((after_text && is_text p) ≡ false) × Apart (is_text p) ps

-- A part that is no text in the place of the first.
Apart-cons :
    (b : Bool) (p : Part) (ps : List Part) → is_text p ≡ false → Apart false ps → Apart b (p ∷ ps)
Apart-cons b p ps e h = (ground arith, subst (λ (t : Bool). Apart t ps) (sym e) h)

Apart-append :
    (b : Bool) (ps : List Part) (p : Part) → is_text p ≡ false → Apart b ps → Apart b (ps ++ p ∷ [])
Apart-append b [] p e h = (ground arith, tt)
Apart-append b (q ∷ ps) p e (h, hs) = (h, Apart-append (is_text q) ps p e hs)

append_chunk-Apart :
    (c : Text) (b : Bool) (p : Part) (ps : List Part)
    → Apart b (p ∷ ps)
    → Apart b (append_chunk c (p ∷ ps))
unfolding append_chunk is_text
append_chunk-Apart c b (text_part raw) [] h = h
append_chunk-Apart c b (products html payload) [] (h, _) = (h, (refl, tt))
append_chunk-Apart c b (image i) [] (h, _) = (h, (refl, tt))
append_chunk-Apart c b (guest_order_access s e) [] (h, _) = (h, (refl, tt))
append_chunk-Apart c b (reasoning r) [] (h, _) = (h, (refl, tt))
append_chunk-Apart c b p (q ∷ ps) (h, hs) = (h, append_chunk-Apart c (is_text p) q ps hs)

no_stop-Apart : (b : Bool) (ps : List Part) → any is_stop ps ≡ false → Apart b ps
unfolding any is_stop
no_stop-Apart b [] e = tt
no_stop-Apart b (p ∷ ps) e = (ground arith, no_stop-Apart (is_text p) ps (ground arith))

Apart-weaken : (b : Bool) (ps : List Part) → Apart b ps → Apart false ps
Apart-weaken b [] h = tt
Apart-weaken b (p ∷ ps) (h, hs) = (refl, hs)

discard-Apart : (b : Bool) (ps : List Part) → Apart b ps → Apart b (discard_latest_thinking_text ps)
unfolding discard_latest_thinking_text
discard-Apart b [] h = h
discard-Apart b (p ∷ ps) (h, hs) = elim (Bool-cases (any is_stop ps)) [
  | inl later ↦ rw later (h, discard-Apart (is_text p) ps hs)
  | inr last ↦ elim (Bool-cases (is_text p)) [
    | inl text ↦ rw (last, text) (no_stop-Apart b ps last)
    | inr other ↦ rw (last, other) (h, hs)
  ]
]

replace-Apart :
    (part : Part) (b : Bool) (ps : List Part)
    → is_text part ≡ false
    → Apart b ps
    → Apart b (replace_last_products part ps)
unfolding replace_last_products
replace-Apart part b [] e h = h
replace-Apart part b (p ∷ ps) e (h, hs) = elim (Bool-cases (any is_products ps)) [
  | inl later ↦ rw later (h, replace-Apart part (is_text p) ps e hs)
  | inr last ↦ elim (Bool-cases (is_products p)) [
    | inl found ↦ rw (last, found) (Apart-cons b part ps e (Apart-weaken (is_text p) ps hs))
    | inr other ↦ rw (last, other) (h, hs)
  ]
]

update-Apart :
    (m : ToolActivity) (ref : ℕ) (b : Bool) (ps : List Part)
    → Apart b ps
    → Apart b (update_reasoning m ref ps)
unfolding update_reasoning is_text
update-Apart m ref b [] h = h
update-Apart m ref b (reasoning r ∷ ps) h = h
update-Apart m ref b (text_part raw ∷ ps) (h, hs) = (h, update-Apart m ref true ps hs)
update-Apart m ref b (products html payload ∷ ps) (h, hs) = (h, update-Apart m ref false ps hs)
update-Apart m ref b (image i ∷ ps) (h, hs) = (h, update-Apart m ref false ps hs)
update-Apart m ref b (guest_order_access s e ∷ ps) (h, hs) = (h, update-Apart m ref false ps hs)

chunk-Apart : (c : Text) (ps : List Part) → Apart false ps → Apart false (append_chunk c ps)
chunk-Apart c [] h = unfold append_chunk in (refl, tt)
chunk-Apart c (p ∷ ps) h = append_chunk-Apart c false p ps h

pub step-Apart :
    (m : Message) (ref : ℕ) (ps : List Part)
    → Apart false ps
    → Apart false (record_outbound_assistant_part m ref ps)
unfolding record_outbound_assistant_part put_products put_activity
step-Apart (chunk content) ref ps h = elim (Bool-cases (filled content)) [
  | inl some_text ↦ rw some_text (chunk-Apart content ps h)
  | inr no_text ↦ rw no_text h
]
step-Apart discard_thinking_text ref ps h = discard-Apart false ps h
step-Apart (products_html html payload) ref ps h = elim (Bool-cases (filled html)) [
  | inl given ↦ elim (Bool-cases (any is_products ps)) [
    | inl old ↦
        rw (given, old) (replace-Apart (products html payload) false ps (unfold is_text in refl) h)
    | inr first ↦
        rw (given, first) (Apart-append false ps (products html payload) (unfold is_text in refl) h)
  ]
  | inr absent ↦ rw absent h
]
step-Apart (image_generated m) ref ps h = elim (Bool-cases (filled m.url)) [
  | inl given ↦ rw given (Apart-append false ps (image (image_of m)) (unfold is_text in refl) h)
  | inr absent ↦ rw absent h
]
step-Apart (guest_order_access_required s e) ref ps h =
    Apart-append false ps (guest_order_access s e) (unfold is_text in refl) h
step-Apart (tool_activity m) ref ps h = elim (Bool-cases (filled m.tool)) [
  | inl given ↦ elim (Bool-cases (any is_reasoning ps)) [
    | inl old ↦ rw (given, old) (update-Apart m ref false ps h)
    | inr first ↦
        rw (given, first)
          (Apart-cons false
            (reasoning (record_activity m ref (record { events = []; activities = [] }))) ps
            (unfold is_text in refl) h)
  ]
  | inr absent ↦ rw absent h
]
step-Apart other_message ref ps h = h
