-- ===== src/Conversation/UserParts.antt =====
-- message-parts.js: the parts of a customer's message. What `extractInlineData` reads and the test for
-- a text that only stands for an image are arguments, and sizes are whole numbers, of either sign.
pub mod Normalized
pub mod Validation
use magento2_chat_ai.JsNumber.{JsNumber, nan, infinite, finite}
use magento2_chat_ai.Prelude.{
  ℕ, ◌+◌, ◌-◌, ◌*◌, ◌/◌, Bool, true, false, not, ◌&&◌, ◌||◌, Option, none, some, List, [], ◌∷◌,
  ◌++◌, map, keep, any, length, reverse, max, ltb, ◌==◌, if◌then◌else◌,
}
use magento2_chat_ai.Text.{
  Text, codes, between, is_space, run_length, filled, filled_or, trim, text_eq, starts_with,
  all_units, Pattern, replace_all,
}

-- `\s+`, for one space.
unfoldable pub spaces_pattern : Pattern
unfolding run_length is_space
spaces_pattern w s = let n = run_length is_space s in if ltb 0 n then some (n, 32 ∷ []) else none

unfoldable pub normalize_text : Text → Text
unfolding replace_all spaces_pattern trim
normalize_text value = trim (replace_all spaces_pattern value)

pub data Size : Type 0 where
  size : ℕ → Size
  below_zero : ℕ → Size

pub record AttachmentRef : Type 0 where
  pub attachment_id : Text
  pub kind : Text
  pub purpose : Text
  pub mime_type : Text
  pub bytes : Size
  pub url : Text

pub record InlineData : Type 0 where
  pub mime_type : Text
  pub image_data : Text

-- A part as it comes: an id of an attachment stands for both of its spellings.
pub record IncomingPart : Type 0 where
  pub text : Text
  pub is_attachment_ref : Bool
  pub attachment_id : Text
  pub kind : Text
  pub purpose : Text
  pub mime_type : Text
  pub bytes : Size
  pub url : Text
  pub inline_data : Option InlineData

pub data UserPart : Type 0 where
  text_part : Text → UserPart
  attachment : AttachmentRef → UserPart
  inline_image : InlineData → UserPart

unfoldable pub attachment_ref_of : IncomingPart → AttachmentRef
unfolding filled_or
attachment_ref_of part = record {
  attachment_id = part.attachment_id;
  kind = filled_or part.kind (codes "image");
  purpose = filled_or part.purpose (codes "vision");
  mime_type = filled_or part.mime_type (codes "image/jpeg");
  bytes = part.bytes;
  url = part.url;
}

unfoldable pub is_missing : Option InlineData → Bool
is_missing none = true
is_missing (some d) = false

unfoldable pub extract_attachment_ref : IncomingPart → Option AttachmentRef
unfolding attachment_ref_of filled is_missing
extract_attachment_ref part =
    if filled part.attachment_id && (part.is_attachment_ref || is_missing part.inline_data)
    then some (attachment_ref_of part)
    else none

-- A part's image: its attachment, or else the image that it holds itself.
unfoldable pub image_parts : Option AttachmentRef → Option InlineData → List UserPart
image_parts (some a) d = attachment a ∷ []
image_parts none (some d) = inline_image d ∷ []
image_parts none none = []

unfoldable pub text_parts : Text → List UserPart
unfolding filled
text_parts text = if filled text then text_part text ∷ [] else []

-- `for (const part of sourceParts)`.
unfoldable pub collect_parts : List IncomingPart → List UserPart
unfolding text_parts image_parts extract_attachment_ref
collect_parts [] = []
collect_parts (p ∷ ps) =
    text_parts (normalize_text p.text)
    ++ (image_parts (extract_attachment_ref p) p.inline_data ++ collect_parts ps)

-- `own` is `payload.attachment || payload.attachment_ref || payload` and `image` what is read from
-- `payload.image`.
pub record Payload : Type 0 where
  pub parts : List IncomingPart
  pub own : IncomingPart
  pub image : Option InlineData
  pub text : Text

pub record Options : Type 0 where
  pub image_prompt : Text
  pub image_display_text : Text

abbrev pub default_image_prompt : Text
default_image_prompt =
    codes "Analyze this image and recommend relevant products from the store if applicable."

abbrev pub default_image_display_text : Text
default_image_display_text = codes "Sent an image"

unfoldable pub is_image : UserPart → Bool
is_image (text_part text) = false
is_image (attachment a) = true
is_image (inline_image d) = true

unfoldable pub text_of : UserPart → Text
text_of (text_part text) = text
text_of (attachment a) = []
text_of (inline_image d) = []

unfoldable pub with_own_image : Payload → List UserPart → List UserPart
unfolding is_image image_parts extract_attachment_ref
with_own_image payload collected =
    if any is_image collected
    then collected
    else collected ++ image_parts (extract_attachment_ref payload.own) payload.image

unfoldable pub prompt_of : Options → Text
unfolding filled_or normalize_text
prompt_of options = normalize_text (filled_or options.image_prompt default_image_prompt)

module _ (is_image_placeholder_text : Text → Bool) where
  unfoldable pub is_useful : Text → Bool
  unfolding filled
  is_useful text = filled text && not (is_image_placeholder_text text)

  -- A part whose text tells something.
  unfoldable pub has_useful_text : UserPart → Bool
  unfolding is_useful text_of normalize_text
  has_useful_text part = is_useful (normalize_text (text_of part))

  unfoldable pub useful_or : Text → Text → Text
  unfolding is_useful
  useful_or raw_text fallback = if is_useful raw_text then raw_text else fallback

  unfoldable pub has_text : UserPart → Bool
  unfolding filled text_of normalize_text
  has_text part = filled (normalize_text (text_of part))

  -- The end of `normalizeIncomingUserParts`, once the parts are collected.
  unfoldable pub complete_text : Options → Text → List UserPart → List UserPart
  unfolding has_useful_text useful_or is_useful has_text prompt_of is_image
  complete_text options raw_text normalized =
      if any is_image normalized && not (any has_useful_text normalized)
      then text_part (useful_or raw_text (prompt_of options)) ∷ keep is_image normalized
      else if any has_text normalized
      then normalized
      else if is_useful raw_text
      then text_part raw_text ∷ normalized
      else if any is_image normalized
      then text_part (prompt_of options) ∷ normalized
      else normalized

  unfoldable pub normalize_incoming_user_parts : Options → Payload → List UserPart
  unfolding complete_text with_own_image collect_parts normalize_text
  normalize_incoming_user_parts options payload =
      complete_text options (normalize_text payload.text)
        (with_own_image payload (collect_parts payload.parts))

-- `.filter(Boolean).join('\n\n')`.
unfoldable pub join_texts : List Text → Text
unfolding filled
join_texts [] = []
join_texts (t ∷ ts) =
    let rest = join_texts ts in
    if filled t then (if filled rest then t ++ 10 ∷ 10 ∷ rest else t) else rest

unfoldable pub extract_text_from_parts : List UserPart → Text
unfolding join_texts text_of normalize_text
extract_text_from_parts parts =
    join_texts (map (λ (p : UserPart). normalize_text (text_of p)) parts)

pub record Descriptor : Type 0 where
  pub parts : List UserPart
  pub has_image : Bool
  pub text : Text
  pub display_text : Text

unfoldable pub build_user_message_descriptor : (Text → Bool) → Options → Payload → Descriptor
unfolding normalize_incoming_user_parts extract_text_from_parts is_useful filled_or
build_user_message_descriptor is_image_placeholder_text options payload =
    let parts = normalize_incoming_user_parts is_image_placeholder_text options payload in
    let has_image = any is_image parts in
    let raw_text = normalize_text payload.text in
    let model_text = normalize_text (extract_text_from_parts parts) in
    record {
      parts = parts;
      has_image = has_image;
      text = filled_or model_text (if has_image then prompt_of options else raw_text);
      display_text =
          if is_useful is_image_placeholder_text raw_text
          then raw_text
          else if has_image
          then normalize_text (filled_or options.image_display_text default_image_display_text)
          else model_text;
    }
