-- ===== src/View/MessagePatch/Stable.antt =====
-- stream-renderer.js: which nodes of a message stay when its blocks are drawn again, and what a text
-- in between leaves.
use magento2_chat_ai.Prelude.{
  ℕ, zero, suc, ◌≤◌, ◌≡◌, refl, ap, ◌∙◌, Bool, true, inl, inr, Option, none, some, List, [], ◌∷◌,
  ◌++◌, map, length, length-append, take, Bool-cases, arith,
}
use magento2_chat_ai.Text.{text_eq, text_eq_iff, Text}
use magento2_chat_ai.View.MessagePatch.{
  text_option_eq, Node, Element, signature_of, Cursor, is_stable, patch_blocks, write_blocks,
  patch_message_blocks, patch_message_text,
}
use magento2_chat_ai.View.MessagePatch.Shown.{blocks_of, next_blocks_of}

is_stable_self : (k : Node) (b : Text) → k.block_html ≡ some b → is_stable k b ≡ true
unfolding is_stable text_option_eq
is_stable_self k b h = rw h ((text_eq_iff b b).1 refl)

-- The children whose blocks come again at their places are kept.
patch_blocks-prefix :
    (animate : Bool) (n : ℕ) (c : Cursor) (common bs : List Text) (kids : List Node)
    → blocks_of (take (length common) kids) ≡ map some common
    → take (length common) (patch_blocks animate n c (common ++ bs) kids).0
      ≡ take (length common) kids
unfolding patch_blocks
patch_blocks-prefix animate n c [] bs kids h = refl
patch_blocks-prefix animate n c (b ∷ common) bs [] h = cc
patch_blocks-prefix animate n c (b ∷ common) bs (k ∷ ks) h =
    let same : k.block_html ≡ some b = cc in
    let after : blocks_of (take (length common) ks) ≡ map some common = cc in
    rw (is_stable_self k b same) (
      ap (λ (r : List Node). k ∷ r)
        (patch_blocks-prefix animate n (record c { index = suc c.index }) common bs ks after))

take-take {ℓ} : {A : Type ℓ} (n m : ℕ) (xs : List A) → n ≤ m → take n (take m xs) ≡ take n xs
take-take zero m xs h = refl
take-take (suc n) zero xs h = absurd (omega arith)
take-take (suc n) (suc m) [] h = refl
take-take {A} (suc n) (suc m) (x ∷ xs) h =
    ap (λ (r : List A). x ∷ r) (take-take n m xs (omega arith))

-- The nodes of the blocks at the front that stand there already, in the same order, stay the same
-- nodes, with their fade, whatever comes after them.
pub patch-stable :
    (animate : Bool) (content common rest : List Text) (e : Element)
    → next_blocks_of content ≡ common ++ rest
    → blocks_of (take (length common) e.children) ≡ map some common
    → take (length common) (patch_message_blocks animate content e).children
      ≡ take (length common) e.children
unfolding patch_message_blocks write_blocks
patch-stable animate content common rest e split h =
    elim (Bool-cases (text_option_eq e.block_signature (signature_of (next_blocks_of content)))) [
      | inl same ↦ rw same refl
      | inr other ↦ rw other (
          take-take (length common) (length (next_blocks_of content)) _
            (rw split (omega (arith, length-append common rest)))
          ∙ rw split (patch_blocks-prefix animate _ _ common rest e.children h))
    ]

text_option_eq_marked : (o : Option Text) (t : Text) → o ≡ some t → text_option_eq o t ≡ true
unfolding text_option_eq
text_option_eq_marked o t h = rw h ((text_eq_iff t t).1 refl)

text_option_eq→eq : (o : Option Text) (t : Text) → text_option_eq o t ≡ true → o ≡ some t
unfolding text_option_eq
text_option_eq→eq none t h = cc
text_option_eq→eq (some s) t h = ap some ((text_eq_iff s t).0 h)

patch-marked :
    (animate : Bool) (content : List Text) (e : Element)
    → (patch_message_blocks animate content e).block_signature
      ≡ some (signature_of (next_blocks_of content))
unfolding patch_message_blocks write_blocks
patch-marked animate content e =
    elim (Bool-cases (text_option_eq e.block_signature (signature_of (next_blocks_of content)))) [
      | inl same ↦
          rw same (text_option_eq→eq e.block_signature (signature_of (next_blocks_of content)) same)
      | inr other ↦ rw other refl
    ]

patch-skipped :
    (animate : Bool) (content : List Text) (e : Element)
    → e.block_signature ≡ some (signature_of (next_blocks_of content))
    → patch_message_blocks animate content e ≡ e
unfolding patch_message_blocks
patch-skipped animate content e h =
    rw (text_option_eq_marked e.block_signature (signature_of (next_blocks_of content)) h) refl

module _ (parse : Text → ℕ → List Node × ℕ) (inner_html : List Node → Text) (html : Text) where
  text-signature :
      (e : Element)
      → (patch_message_text parse inner_html html e).block_signature ≡ e.block_signature
  unfolding patch_message_text
  text-signature e = elim (Bool-cases (text_eq (inner_html e.children) html)) [
    | inl same ↦ rw same refl
    | inr other ↦ rw other refl
  ]

  -- Blocks that were drawn, then replaced by a text, are not drawn when they come again: the
  -- signature outlives the text, and the element stays as the text left it.
  pub patch-after_text :
      (animate : Bool) (content : List Text) (e : Element)
      → patch_message_blocks animate content
          (patch_message_text parse inner_html html (patch_message_blocks animate content e))
        ≡ patch_message_text parse inner_html html (patch_message_blocks animate content e)
  patch-after_text animate content e =
      patch-skipped animate content
        (patch_message_text parse inner_html html (patch_message_blocks animate content e))
        (text-signature (patch_message_blocks animate content e) ∙ patch-marked animate content e)
