-- ===== src/Conversation/AssistantParts/Kinds.antt =====
-- message-parts.js: how many parts of each kind an answer has, and which comes first.
use magento2_chat_ai.Conversation.AssistantParts.{
  Part, Reasoning, text_part, products, image, guest_order_access, reasoning, is_text, is_products,
  is_reasoning, is_stop, append_chunk, discard_latest_thinking_text, replace_last_products,
  update_reasoning, ToolActivity, record_activity,
}
use magento2_chat_ai.Prelude.{
  ℕ, suc, ◌+◌, ◌≡◌, refl, ◌∙◌, Bool, true, false, inl, inr, List, [], ◌∷◌, ◌++◌, any, Bool-cases,
  arith, if◌then◌else◌,
}
use magento2_chat_ai.Text.{Text}

unfoldable pub count : (Part → Bool) → List Part → ℕ
count q [] = 0
count q (p ∷ ps) = if q p then suc (count q ps) else count q ps

pub any-count : (q : Part → Bool) (ps : List Part) → any q ps ≡ false → count q ps ≡ 0
unfolding any count
any-count q [] h = refl
any-count q (p ∷ ps) h = ground (arith, any-count q ps)

-- Parts of another kind than text.
module _ (q : Part → Bool) (no_text : (raw : Text) → q (text_part raw) ≡ false) where
  pub count-append_chunk : (c : Text) (ps : List Part) → count q (append_chunk c ps) ≡ count q ps
  unfolding count append_chunk
  count-append_chunk c [] = rw (no_text c) refl
  count-append_chunk c (text_part raw ∷ []) = rw (no_text (raw ++ c), no_text raw) refl
  count-append_chunk c (products html payload ∷ []) = rw (no_text c) refl
  count-append_chunk c (image i ∷ []) = rw (no_text c) refl
  count-append_chunk c (guest_order_access s e ∷ []) = rw (no_text c) refl
  count-append_chunk c (reasoning r ∷ []) = rw (no_text c) refl
  count-append_chunk c (p ∷ r ∷ ps) = ground (arith, count-append_chunk c (r ∷ ps))

  count-text : (p : Part) → is_text p ≡ true → q p ≡ false
  unfolding is_text
  count-text (text_part raw) h = no_text raw
  count-text (products html payload) h = cc
  count-text (image i) h = cc
  count-text (guest_order_access s e) h = cc
  count-text (reasoning r) h = cc

  pub count-discard : (ps : List Part) → count q (discard_latest_thinking_text ps) ≡ count q ps
  unfolding count discard_latest_thinking_text
  count-discard [] = refl
  count-discard (p ∷ ps) = elim (Bool-cases (any is_stop ps)) [
    | inl later ↦ rw later (ground (arith, count-discard ps))
    | inr last ↦ elim (Bool-cases (is_text p)) [
      | inl text ↦ rw (last, text, count-text p text) refl
      | inr other ↦ rw (last, other) refl
    ]
  ]

  pub count-append :
      (p : Part) (ps : List Part) → count q (ps ++ p ∷ []) ≡ count q ps + count q (p ∷ [])
  unfolding count
  count-append p [] = omega arith
  count-append p (r ∷ ps) = ground (arith, count-append p ps)

  pub count-update :
      (m : ToolActivity) (ref : ℕ) (ps : List Part)
      → ((r s : Reasoning) → q (reasoning r) ≡ q (reasoning s))
      → count q (update_reasoning m ref ps) ≡ count q ps
  unfolding count update_reasoning
  count-update m ref [] same = refl
  count-update m ref (reasoning r ∷ ps) same = rw (same (record_activity m ref r) r) refl
  count-update m ref (text_part raw ∷ ps) same = ground (arith, count-update m ref ps same)
  count-update m ref (products html payload ∷ ps) same = ground (arith, count-update m ref ps same)
  count-update m ref (image i ∷ ps) same = ground (arith, count-update m ref ps same)
  count-update m ref (guest_order_access s e ∷ ps) same = ground (arith, count-update m ref ps same)

  pub count-replace :
      (part : Part) (ps : List Part)
      → ((p : Part) → is_products p ≡ true → q part ≡ q p)
      → count q (replace_last_products part ps) ≡ count q ps
  unfolding count replace_last_products
  count-replace part [] same = refl
  count-replace part (p ∷ ps) same = elim (Bool-cases (any is_products ps)) [
    | inl later ↦ rw later (ground (arith, count-replace part ps same))
    | inr last ↦ elim (Bool-cases (is_products p)) [
      | inl found ↦ rw (last, found, same p found) refl
      | inr other ↦ rw (last, other) refl
    ]
  ]

-- No reasoning stands behind the first part.
abbrev pub ReasoningFirst : List Part → Type 0
ReasoningFirst [] = Unit {0}
ReasoningFirst (p ∷ ps) = count is_reasoning ps ≡ 0

not_reasoning : (raw : Text) → is_reasoning (text_part raw) ≡ false
unfolding is_reasoning
not_reasoning raw = refl

pub not_products : (raw : Text) → is_products (text_part raw) ≡ false
unfolding is_products
not_products raw = refl

pub chunk-ReasoningFirst :
    (c : Text) (ps : List Part) → ReasoningFirst ps → ReasoningFirst (append_chunk c ps)
unfolding append_chunk count is_reasoning
chunk-ReasoningFirst c [] h = refl
chunk-ReasoningFirst c (text_part raw ∷ []) h = refl
chunk-ReasoningFirst c (products html payload ∷ []) h = refl
chunk-ReasoningFirst c (image i ∷ []) h = refl
chunk-ReasoningFirst c (guest_order_access s e ∷ []) h = refl
chunk-ReasoningFirst c (reasoning r ∷ []) h = refl
chunk-ReasoningFirst c (p ∷ r ∷ ps) h = count-append_chunk is_reasoning not_reasoning c (r ∷ ps) ∙ h

none-ReasoningFirst : (ps : List Part) → count is_reasoning ps ≡ 0 → ReasoningFirst ps
unfolding count
none-ReasoningFirst [] h = tt
none-ReasoningFirst (p ∷ ps) h = ground arith

pub discard-ReasoningFirst :
    (ps : List Part) → ReasoningFirst ps → ReasoningFirst (discard_latest_thinking_text ps)
unfolding discard_latest_thinking_text
discard-ReasoningFirst [] h = tt
discard-ReasoningFirst (p ∷ ps) h = elim (Bool-cases (any is_stop ps)) [
  | inl later ↦ rw later (count-discard is_reasoning not_reasoning ps ∙ h)
  | inr last ↦ elim (Bool-cases (is_text p)) [
    | inl text ↦ rw (last, text) (none-ReasoningFirst ps h)
    | inr other ↦ rw (last, other) h
  ]
]

pub append-ReasoningFirst :
    (p : Part) (ps : List Part)
    → is_reasoning p ≡ false
    → ReasoningFirst ps
    → ReasoningFirst (ps ++ p ∷ [])
unfolding count
append-ReasoningFirst p [] e h = refl
append-ReasoningFirst p (r ∷ ps) e h = ground (arith, count-append is_reasoning not_reasoning p ps)

pub products-reasoning :
    (part p : Part)
    → is_products part ≡ true
    → is_products p ≡ true
    → is_reasoning part ≡ is_reasoning p
unfolding is_products is_reasoning
products-reasoning part p a b = ground arith

pub replace-ReasoningFirst :
    (part : Part) (ps : List Part)
    → is_products part ≡ true
    → ReasoningFirst ps
    → ReasoningFirst (replace_last_products part ps)
unfolding replace_last_products
replace-ReasoningFirst part [] e h = tt
replace-ReasoningFirst part (p ∷ ps) e h = elim (Bool-cases (any is_products ps)) [
  | inl later ↦
      rw later (
        count-replace is_reasoning not_reasoning part ps (λ r k. products-reasoning part r e k) ∙ h)
  | inr last ↦ elim (Bool-cases (is_products p)) [
    | inl found ↦ rw (last, found) h
    | inr other ↦ rw (last, other) h
  ]
]

pub update-ReasoningFirst :
    (m : ToolActivity) (ref : ℕ) (ps : List Part)
    → ReasoningFirst ps
    → ReasoningFirst (update_reasoning m ref ps)
unfolding update_reasoning is_reasoning
update-ReasoningFirst m ref [] h = tt
update-ReasoningFirst m ref (reasoning r ∷ ps) h = h
update-ReasoningFirst m ref (text_part raw ∷ ps) h =
    count-update is_reasoning not_reasoning m ref ps (λ r s. refl) ∙ h
update-ReasoningFirst m ref (products html payload ∷ ps) h =
    count-update is_reasoning not_reasoning m ref ps (λ r s. refl) ∙ h
update-ReasoningFirst m ref (image i ∷ ps) h =
    count-update is_reasoning not_reasoning m ref ps (λ r s. refl) ∙ h
update-ReasoningFirst m ref (guest_order_access s e ∷ ps) h =
    count-update is_reasoning not_reasoning m ref ps (λ r s. refl) ∙ h
