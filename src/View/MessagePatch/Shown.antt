-- ===== src/View/MessagePatch/Shown.antt =====
-- stream-renderer.js: what stands on the screen after blocks were drawn, and which nodes stay.
use magento2_chat_ai.Prelude.{
  ℕ, suc, ◌≡◌, refl, sym, ap, ◌∙◌, Bool, true, false, not, ◌≢◌, ◌⊎◌, inl, inr, Option, none, some,
  List, [], ◌∷◌, ◌++◌, map, length, take, keep, ◌==◌, Bool-cases, arith, if◌then◌else◌,
}
use magento2_chat_ai.Text.{text_eq_iff, Text, trim_start}
use magento2_chat_ai.View.MessagePatch.{
  text_option_eq, Node, Element, is_blank, signature_of, Cursor, is_stable, patch_blocks,
  write_blocks, patch_message_blocks, new_element, new_node, after_new,
}

-- The blocks that the children of an element stand for.
abbrev pub blocks_of : List Node → List (Option Text)
blocks_of kids = map (λ (k : Node). k.block_html) kids

abbrev pub next_blocks_of : List Text → List Text
next_blocks_of html_content = keep (λ b. not (is_blank b)) html_content

text_option_eq→eq : (o : Option Text) (t : Text) → text_option_eq o t ≡ true → o ≡ some t
unfolding text_option_eq
text_option_eq→eq none t h = cc
text_option_eq→eq (some s) t h = ap some ((text_eq_iff s t).0 h)

text_option_eq_self : (t : Text) → text_option_eq (some t) t ≡ true
unfolding text_option_eq
text_option_eq_self t = (text_eq_iff t t).1 refl

patch_blocks-shown :
    (animate : Bool) (previous_count : ℕ) (c : Cursor) (bs : List Text) (kids : List Node)
    → blocks_of (take (length bs) (patch_blocks animate previous_count c bs kids).0) ≡ map some bs
unfolding patch_blocks new_node is_stable
patch_blocks-shown animate n c [] kids = refl
patch_blocks-shown animate n c (b ∷ bs) [] =
    ap (λ (r : List (Option Text)). some b ∷ r)
      (patch_blocks-shown animate n (after_new animate n c) bs [])
patch_blocks-shown animate n c (b ∷ bs) (k ∷ ks) = elim (Bool-cases (is_stable k b)) [
  | inl e ↦
      let same = text_option_eq→eq k.block_html b e in
      let next : Cursor = record c { index = suc c.index } in
      rw e (
        ap (λ (r : List (Option Text)). k.block_html ∷ r) (patch_blocks-shown animate n next bs ks)
        ∙ ap (λ (o : Option Text). o ∷ map some bs) same)
  | inr e ↦ rw e (
      ap (λ (r : List (Option Text)). some b ∷ r)
        (patch_blocks-shown animate n (after_new animate n c) bs ks))
]

write_blocks-shown :
    (animate : Bool) (bs : List Text) (e : Element)
    → blocks_of (write_blocks animate bs e).children ≡ map some bs
unfolding write_blocks
write_blocks-shown animate bs e = patch_blocks-shown animate _ _ bs e.children

-- A block with text in it and without the unit that separates the blocks of a signature.
abbrev pub HasNoNul : Text → Type 0
HasNoNul [] = Unit {0}
HasNoNul (c ∷ s) = (c ≢ 0) × HasNoNul s

abbrev pub AllHaveNoNul : List Text → Type 0
AllHaveNoNul [] = Unit {0}
AllHaveNoNul (b ∷ bs) = HasNoNul b × AllHaveNoNul bs

-- The text of a signature taken apart again.
first_unit : ℕ → List Text → List Text
first_unit c [] = (c ∷ []) ∷ []
first_unit c (b ∷ bs) = (c ∷ b) ∷ bs

split_nul : Text → List Text
split_nul [] = [] ∷ []
split_nul (c ∷ s) = let rest = split_nul s in if c == 0 then [] ∷ rest else first_unit c rest

split_nul-block : (b : Text) → HasNoNul b → split_nul b ≡ b ∷ []
unfolding split_nul first_unit
split_nul-block [] h = refl
split_nul-block (c ∷ b) h = ground (arith, split_nul-block b)

split_nul-append : (b t : Text) → HasNoNul b → split_nul (b ++ 0 ∷ t) ≡ b ∷ split_nul t
unfolding split_nul first_unit
split_nul-append [] t h = refl
split_nul-append (c ∷ b) t h = ground (arith, split_nul-append b t)

split_nul-signature :
    (b : Text) (bs : List Text) → AllHaveNoNul (b ∷ bs) → split_nul (signature_of (b ∷ bs)) ≡ b ∷ bs
unfolding signature_of
split_nul-signature b [] h = split_nul-block b h.0
split_nul-signature b (c ∷ bs) h =
    split_nul-append b (signature_of (c ∷ bs)) h.0
    ∙ ap (λ (r : List Text). b ∷ r) (split_nul-signature c bs h.1)

abbrev pub AllClean : List Text → Type 0
AllClean [] = Unit {0}
AllClean (b ∷ bs) = HasNoNul b × (is_blank b ≡ false) × AllClean bs

AllClean-no_nul : (bs : List Text) → AllClean bs → AllHaveNoNul bs
AllClean-no_nul [] h = tt
AllClean-no_nul (b ∷ bs) h = (h.0, AllClean-no_nul bs h.2)

next_blocks_of-AllClean :
    (content : List Text) → AllHaveNoNul content → AllClean (next_blocks_of content)
unfolding keep
next_blocks_of-AllClean [] h = tt
next_blocks_of-AllClean (b ∷ bs) h = elim (Bool-cases (is_blank b)) [
  | inl e ↦ rw e (next_blocks_of-AllClean bs h.1)
  | inr e ↦ rw e (h.0, e, next_blocks_of-AllClean bs h.1)
]

signature-ne_empty : (b : Text) (bs : List Text) → is_blank b ≡ false → signature_of (b ∷ bs) ≢ []
unfolding signature_of is_blank trim_start
signature-ne_empty [] bs h = λ e. cc
signature-ne_empty (c ∷ b) [] h = λ e. cc
signature-ne_empty (c ∷ b) (d ∷ bs) h = λ e. cc

signature-injective :
    (bs cs : List Text) → AllClean bs → AllClean cs → signature_of bs ≡ signature_of cs → bs ≡ cs
unfolding signature_of
signature-injective [] [] h k e = refl
signature-injective [] (c ∷ cs) h k e = absurd (signature-ne_empty c cs k.1 (sym e))
signature-injective (b ∷ bs) [] h k e = absurd (signature-ne_empty b bs h.1 e)
signature-injective (b ∷ bs) (c ∷ cs) h k e =
    sym (split_nul-signature b bs (AllClean-no_nul (b ∷ bs) h))
    ∙ ap split_nul e
    ∙ split_nul-signature c cs (AllClean-no_nul (c ∷ cs) k)

-- Either nothing was drawn yet, or the signature is that of the blocks that stand there.
abbrev pub IsFaithful : Element → Type 0
IsFaithful e =
    (e.block_signature ≡ none)
    ⊎ ((bs : List Text) × AllClean bs
        × (e.block_signature ≡ some (signature_of bs))
        × (blocks_of e.children ≡ map some bs))

write_blocks-IsFaithful :
    (animate : Bool) (bs : List Text) (e : Element)
    → AllClean bs
    → IsFaithful (write_blocks animate bs e)
unfolding write_blocks
write_blocks-IsFaithful animate bs e h = inr (bs, h, refl, write_blocks-shown animate bs e)

-- From a faithful element, what is drawn stands there afterwards, and the element stays faithful.
pub patch-IsFaithful :
    (animate : Bool) (content : List Text) (e : Element)
    → AllHaveNoNul content
    → IsFaithful e
    → IsFaithful (patch_message_blocks animate content e)
      × (blocks_of (patch_message_blocks animate content e).children
          ≡ map some (next_blocks_of content))
unfolding patch_message_blocks
patch-IsFaithful animate content e h f =
    elim (Bool-cases (text_option_eq e.block_signature (signature_of (next_blocks_of content)))) [
      | inl same ↦ rw same (
        f,
        shown f (text_option_eq→eq e.block_signature (signature_of (next_blocks_of content)) same),
      )
      | inr other ↦ rw other (
        write_blocks-IsFaithful animate (next_blocks_of content) e
            (next_blocks_of-AllClean content h),
        write_blocks-shown animate (next_blocks_of content) e,
      )
    ]
  where
    shown :
        IsFaithful e
        → e.block_signature ≡ some (signature_of (next_blocks_of content))
        → blocks_of e.children ≡ map some (next_blocks_of content)
    shown (inl unmarked) eq = cc
    shown (inr (bs, clean, marked, stands)) eq =
        stands
        ∙ ap (map some) (
            signature-injective bs (next_blocks_of content) clean
              (next_blocks_of-AllClean content h) (cc))

-- Blocks are drawn again and again, as the text of a message grows.
unfoldable pub draw_all : List (Bool × List Text) → Element → Element
draw_all [] e = e
draw_all ((animate, content) ∷ ds) e = draw_all ds (patch_message_blocks animate content e)

abbrev pub AllDrawable : List (Bool × List Text) → Type 0
AllDrawable [] = Unit {0}
AllDrawable ((animate, content) ∷ ds) = AllHaveNoNul content × AllDrawable ds

draw_all-IsFaithful :
    (ds : List (Bool × List Text)) (e : Element)
    → AllDrawable ds
    → IsFaithful e
    → IsFaithful (draw_all ds e)
unfolding draw_all
draw_all-IsFaithful [] e h f = f
draw_all-IsFaithful ((animate, content) ∷ ds) e h f =
    draw_all-IsFaithful ds (patch_message_blocks animate content e) h.1
      (patch-IsFaithful animate content e h.0 f).0

-- After any drawings of blocks without the unit U+0000 on a new element, one more drawing leaves
-- exactly its blocks that are not blank standing, in order, as if it had been the only one.
pub draw_all-shown :
    (ds : List (Bool × List Text)) (animate : Bool) (content : List Text)
    → AllDrawable ds
    → AllHaveNoNul content
    → blocks_of (patch_message_blocks animate content (draw_all ds new_element)).children
      ≡ map some (next_blocks_of content)
draw_all-shown ds animate content h k =
    (patch-IsFaithful animate content (draw_all ds new_element) k
      (draw_all-IsFaithful ds new_element h (inl refl))).1
