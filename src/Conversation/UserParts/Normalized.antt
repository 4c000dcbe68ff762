-- ===== src/Conversation/UserParts/Normalized.antt =====
-- message-parts.js: what a message holds once it is normalised.
use magento2_chat_ai.Conversation.UserParts.{
  IncomingPart, UserPart, text_part, InlineData, AttachmentRef, Payload, Options, image_parts,
  collect_parts, extract_attachment_ref, with_own_image, is_image, is_useful, has_useful_text,
  useful_or, has_text, complete_text, prompt_of, normalize_text, text_of,
  normalize_incoming_user_parts, text_parts,
}
use magento2_chat_ai.Prelude.{
  ◌≡◌, refl, sym, ap, ◌∙◌, Bool, true, false, not, ◌&&◌, ◌||◌, Option, none, some, List, [], ◌∷◌,
  ◌++◌, keep, any, Bool-cases, inl, inr, if◌then◌else◌, arith,
}
use magento2_chat_ai.Text.{Text, filled}

-- The images that the parts of a message hold, in order.
abbrev pub images_of_parts : List IncomingPart → List UserPart
images_of_parts [] = []
images_of_parts (p ∷ ps) =
    image_parts (extract_attachment_ref p) p.inline_data ++ images_of_parts ps

-- Those of its parts, or, where there are none, its own.
unfoldable pub images_of : Payload → List UserPart
images_of payload =
    if any is_image (images_of_parts payload.parts)
    then images_of_parts payload.parts
    else image_parts (extract_attachment_ref payload.own) payload.image

keep-append :
    (xs ys : List UserPart) → keep is_image (xs ++ ys) ≡ keep is_image xs ++ keep is_image ys
unfolding keep
keep-append [] ys = refl
keep-append (x ∷ xs) ys = ground (arith, keep-append xs ys)

any-append :
    (xs ys : List UserPart) → any is_image (xs ++ ys) ≡ (any is_image xs || any is_image ys)
unfolding any
any-append [] ys = refl
any-append (x ∷ xs) ys = ground (arith, any-append xs ys)

keep-text : (t : Text) → (keep is_image (text_parts t) ≡ []) × (any is_image (text_parts t) ≡ false)
unfolding text_parts keep any is_image
keep-text t = ground arith

keep-image :
    (a : Option AttachmentRef) (d : Option InlineData)
    → keep is_image (image_parts a d) ≡ image_parts a d
unfolding image_parts keep is_image
keep-image (some a) d = refl
keep-image none (some d) = refl
keep-image none none = refl

collect-images : (ps : List IncomingPart) → keep is_image (collect_parts ps) ≡ images_of_parts ps
unfolding collect_parts
collect-images [] = unfold keep in refl
collect-images (p ∷ ps) =
    keep-append (text_parts (normalize_text p.text))
      (image_parts (extract_attachment_ref p) p.inline_data ++ collect_parts ps)
    ∙ ap
        (λ (l : List UserPart).
          l
          ++ keep is_image
              (image_parts (extract_attachment_ref p) p.inline_data ++ collect_parts ps))
        (keep-text (normalize_text p.text)).0
    ∙ keep-append (image_parts (extract_attachment_ref p) p.inline_data) (collect_parts ps)
    ∙ ap (λ (l : List UserPart). l ++ keep is_image (collect_parts ps))
        (keep-image (extract_attachment_ref p) p.inline_data)
    ∙ ap (λ (l : List UserPart). image_parts (extract_attachment_ref p) p.inline_data ++ l)
        (collect-images ps)

any-keep : (xs : List UserPart) → any is_image (keep is_image xs) ≡ any is_image xs
unfolding keep any
any-keep [] = refl
any-keep (x ∷ xs) = elim (Bool-cases (is_image x)) [
  | inl image ↦ rw (image, image) refl
  | inr text ↦ rw text (any-keep xs)
]

none-keep : (xs : List UserPart) → any is_image xs ≡ false → keep is_image xs ≡ []
unfolding keep any
none-keep [] h = refl
none-keep (x ∷ xs) h = ground (arith, none-keep xs)

own-images :
    (payload : Payload)
    → keep is_image (with_own_image payload (collect_parts payload.parts)) ≡ images_of payload
unfolding with_own_image images_of
own-images payload =
    let same = collect-images payload.parts in
    let found : any is_image (images_of_parts payload.parts)
        ≡ any is_image (collect_parts payload.parts) =
      ap (any is_image) (sym same) ∙ any-keep (collect_parts payload.parts) in
    elim (Bool-cases (any is_image (collect_parts payload.parts))) [
      | inl some_image ↦ rw (found, some_image) same
      | inr no_image ↦
          rw (found, no_image)
            (keep-append (collect_parts payload.parts)
                (image_parts (extract_attachment_ref payload.own) payload.image)
              ∙ ap
                  (λ (l : List UserPart).
                    l
                    ++ keep is_image
                        (image_parts (extract_attachment_ref payload.own) payload.image))
                  (none-keep (collect_parts payload.parts) no_image)
              ∙ keep-image (extract_attachment_ref payload.own) payload.image)
    ]

-- It has a text.
abbrev pub says : UserPart → Bool
says p = filled (text_of p)

-- A text that is not blank is not empty.
normalized-filled : (t : Text) → filled (normalize_text t) ≡ true → filled t ≡ true
unfolding normalize_text filled
normalized-filled [] h = h
normalized-filled (c ∷ t) h = refl

head-says : (t : Text) (ps : List UserPart) → filled t ≡ true → any says (text_part t ∷ ps) ≡ true
unfolding any text_of
head-says t ps h = rw h refl

useful-filled :
    (placeholder : Text → Bool) (t : Text) → is_useful placeholder t ≡ true → filled t ≡ true
unfolding is_useful
useful-filled placeholder t h = ground arith

useful_or-filled :
    (placeholder : Text → Bool) (t fallback : Text)
    → filled fallback ≡ true
    → filled (useful_or placeholder t fallback) ≡ true
unfolding useful_or is_useful
useful_or-filled placeholder t fallback h = ground arith

module _ (placeholder : Text → Bool) where
  useful-says :
      (ps : List UserPart) → any (has_useful_text placeholder) ps ≡ true → any says ps ≡ true
  unfolding any has_useful_text filled
  useful-says [] h = h
  useful-says (p ∷ ps) h = elim (Bool-cases (says p)) [
    | inl told ↦ rw told refl
    | inr silent ↦ rw silent (useful-says ps (later h (not_useful silent)))
  ]
    where
      not_useful : says p ≡ false → has_useful_text placeholder p ≡ false
      not_useful e = elim (Bool-cases (filled (normalize_text (text_of p)))) [
        | inl f ↦ absurd (contradiction (sym (normalized-filled (text_of p) f) ∙ e))
        | inr f ↦ ap (λ (b : Bool). b && not (placeholder (normalize_text (text_of p)))) f
      ]
        where
          contradiction : true ≡ false → ⊥
          contradiction k = cc

      later :
          (has_useful_text placeholder p || any (has_useful_text placeholder) ps) ≡ true
          → has_useful_text placeholder p ≡ false
          → any (has_useful_text placeholder) ps ≡ true
      later k e = ground arith

  module _ (options : Options) (raw_text : Text) (ps : List UserPart) where
    complete-says :
        any is_image ps ≡ true
        → filled (prompt_of options) ≡ true
        → any says (complete_text placeholder options raw_text ps) ≡ true
    unfolding complete_text
    complete-says image prompt = elim (Bool-cases (any (has_useful_text placeholder) ps)) [
      | inr silent ↦ rw image (
          rw silent (
            head-says (useful_or placeholder raw_text (prompt_of options)) (keep is_image ps)
              (useful_or-filled placeholder raw_text (prompt_of options) prompt)))
      | inl useful ↦ elim (Bool-cases (any (has_text placeholder) ps)) [
        | inl text ↦ rw image (rw useful (rw text (useful-says ps useful)))
        | inr no_text ↦ elim (Bool-cases (is_useful placeholder raw_text)) [
          | inl raw ↦ rw image (
              rw useful (
                rw no_text
                  (rw raw (head-says raw_text ps (useful-filled placeholder raw_text raw)))))
          | inr no_raw ↦
              rw image
                (rw useful (rw no_text (rw no_raw (head-says (prompt_of options) ps prompt))))
        ]
      ]
    ]

-- A message with an image, whether of its parts or its own, is never sent without a text, provided
-- that the prompt that stands in for one is not blank.
pub normalize-says :
    (placeholder : Text → Bool) (options : Options) (payload : Payload)
    → any is_image (images_of payload) ≡ true
    → filled (prompt_of options) ≡ true
    → any says (normalize_incoming_user_parts placeholder options payload) ≡ true
unfolding normalize_incoming_user_parts
normalize-says placeholder options payload image prompt =
    complete-says placeholder options (normalize_text payload.text)
      (with_own_image payload (collect_parts payload.parts))
      (sym (any-keep (with_own_image payload (collect_parts payload.parts)))
        ∙ ap (any is_image) (own-images payload)
        ∙ image)
      prompt
