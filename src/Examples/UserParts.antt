-- ===== src/Examples/UserParts.antt =====
-- message-parts.js: messages with images, and the limits that they meet.
use magento2_chat_ai.Conversation.UserParts.{
  Size, size, below_zero, IncomingPart, UserPart, text_part, attachment, Payload, Options, is_image,
  prompt_of, image_parts, extract_attachment_ref,
}
use magento2_chat_ai.Conversation.UserParts.Normalized.{images_of}
use magento2_chat_ai.Conversation.UserParts.Validation.{
  Limits, limits_of, validate_image_parts, check_part, count_image, is_allowed_type,
}
use magento2_chat_ai.JsNumber.{finite}
use magento2_chat_ai.Prelude.{◌≡◌, refl, Bool, true, false, none, List, [], ◌∷◌, any}
use magento2_chat_ai.Text.{Text, codes, filled, text_eq}

abbrev limits : Limits
limits =
    limits_of (finite false 100 false) (finite false 2 false) (finite false 150 false)
      (finite false 150 false)

abbrev photo : Size → UserPart
photo n = attachment (record {
  attachment_id = codes "a1";
  kind = codes "image";
  purpose = codes "vision";
  mime_type = codes "image/png";
  bytes = n;
  url = [];
})

abbrev two_photos : List UserPart
two_photos = text_part (codes "which one?") ∷ photo (size 80) ∷ photo (size 70) ∷ []

abbrev ref_part : IncomingPart
ref_part = record {
  text = codes " a  red one ";
  is_attachment_ref = true;
  attachment_id = codes "a1";
  kind = [];
  purpose = [];
  mime_type = [];
  bytes = size 80;
  url = [];
  inline_data = none;
}

abbrev payload : Payload
payload = record {
  parts = ref_part ∷ [];
  own = record ref_part { attachment_id = [] };
  image = none;
  text = codes "hi";
}

abbrev options : Options
options = record { image_prompt = []; image_display_text = [] }

abbrev placeholder : Text → Bool
placeholder t = text_eq t (codes "Sent an image")

payload-image : any is_image (images_of payload) ≡ true
unfolding images_of any image_parts extract_attachment_ref is_image
payload-image = refl

prompt-filled : filled (prompt_of options) ≡ true
unfolding prompt_of filled
prompt-filled = refl

-- A size below zero counts against the total.
offset_photos : validate_image_parts limits (photo (below_zero 60) ∷ photo (size 100) ∷ []) ≡ none
unfolding validate_image_parts limits_of check_part count_image filled is_allowed_type
offset_photos = refl
