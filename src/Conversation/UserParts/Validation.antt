-- ===== src/Conversation/UserParts/Validation.antt =====
-- `validateImageParts` of message-parts.js: the images that a message may hold.
use magento2_chat_ai.Conversation.UserParts.{
  Size, size, below_zero, UserPart, text_part, attachment, inline_image,
}
use magento2_chat_ai.JsNumber.{JsNumber, nan, infinite, finite}
use magento2_chat_ai.Prelude.{
  ℕ, ◌+◌, ◌-◌, ◌*◌, ◌/◌, ◌≤◌, ◌≡◌, Bool, true, false, not, ◌&&◌, ◌||◌, Option, none, some, List, [],
  ◌∷◌, any, length, reverse, max, ltb, ◌==◌, if◌then◌else◌,
}
use magento2_chat_ai.Text.{Text, codes, between, filled, text_eq, starts_with, all_units}

pub data ImageError : Type 0 where
  too_many_images unsupported_type invalid_payload image_too_large upload_too_large : ImageError

pub record Limits : Type 0 where
  pub max_bytes : ℕ
  pub max_count : ℕ
  pub max_total_bytes : ℕ
  pub max_encoded_bytes : ℕ

-- `Number.isFinite(Number(value)) ? Math.max(1, Math.trunc(Number(value))) : fallback`.
unfoldable pub limit_or : JsNumber → ℕ → ℕ
limit_or nan fallback = fallback
limit_or (infinite s) fallback = fallback
limit_or (finite true n f) fallback = 1
limit_or (finite false n f) fallback = max 1 n

unfoldable pub limits_of : JsNumber → JsNumber → JsNumber → JsNumber → Limits
unfolding limit_or
limits_of max_bytes max_count max_total_bytes max_encoded_bytes = record {
  max_bytes = limit_or max_bytes 4194304;
  max_count = limit_or max_count 4;
  max_total_bytes = limit_or max_total_bytes 6291456;
  max_encoded_bytes = limit_or max_encoded_bytes 6291456;
}

abbrev pub allowed_image_mime_types : List Text
allowed_image_mime_types = codes "image/jpeg" ∷ codes "image/png" ∷ codes "image/webp" ∷ []

unfoldable pub is_allowed_type : Text → Bool
unfolding any text_eq
is_allowed_type mime_type = any (λ t. text_eq t mime_type) allowed_image_mime_types

-- `/^[A-Za-z0-9+/=]+$/`.
unfoldable pub is_base64 : Text → Bool
unfolding filled all_units between
is_base64 s =
    filled s
    && all_units
        (λ c.
          between b'0' c b'9'
          || between b'A' c b'Z'
          || between b'a' c b'z'
          || c == b'+'
          || c == b'/'
          || c == b'=')
        s

unfoldable pub padding : Text → ℕ
unfolding starts_with
padding s =
    if starts_with (codes "==") (reverse s)
    then 2
    else if starts_with (codes "=") (reverse s)
    then 1
    else 0

-- `estimateBase64Bytes`, of a text of this form.
unfoldable pub estimate_base64_bytes : Text → ℕ
unfolding padding
estimate_base64_bytes s = length s * 3 / 4 - padding s

-- The total of the bytes is `gained - lost`, since a size may be below zero.
pub record Totals : Type 0 where
  pub count : ℕ
  pub gained : ℕ
  pub lost : ℕ
  pub encoded : ℕ

abbrev pub no_totals : Totals
no_totals = record { count = 0; gained = 0; lost = 0; encoded = 0 }

abbrev pub amount : Size → ℕ
amount (size n) = n
amount (below_zero n) = 0

abbrev pub debt : Size → ℕ
debt (size n) = 0
debt (below_zero n) = n

-- What an image adds to the totals.
unfoldable pub count_image : UserPart → Totals → Totals
count_image (text_part text) t = t
count_image (attachment a) t = record t {
  count = t.count + 1;
  gained = t.gained + amount a.bytes;
  lost = t.lost + debt a.bytes;
}
count_image (inline_image d) t = record t {
  count = t.count + 1;
  gained = t.gained + estimate_base64_bytes d.image_data;
  encoded = t.encoded + length d.image_data;
}

module _ (limits : Limits) where
  -- The checks of one part, in their order, on the totals with it.
  unfoldable pub check_part : UserPart → Totals → Option ImageError
  check_part (text_part text) t = none
  check_part (attachment a) t =
      if ltb limits.max_count t.count
      then some too_many_images
      else if filled a.mime_type && not (is_allowed_type a.mime_type)
      then some unsupported_type
      else if ltb limits.max_bytes (amount a.bytes)
      then some image_too_large
      else if ltb (limits.max_total_bytes + t.lost) t.gained
      then some upload_too_large
      else none
  check_part (inline_image d) t =
      if ltb limits.max_count t.count
      then some too_many_images
      else if not (is_allowed_type d.mime_type)
      then some unsupported_type
      else if not (is_base64 d.image_data)
      then some invalid_payload
      else if ltb limits.max_bytes (estimate_base64_bytes d.image_data)
      then some image_too_large
      else if ltb (limits.max_total_bytes + t.lost) t.gained
          || ltb limits.max_encoded_bytes t.encoded
      then some upload_too_large
      else none

  unfoldable pub validate_from : Totals → List UserPart → Option ImageError
  validate_from t [] = none
  validate_from t (p ∷ ps) = elim (check_part p (count_image p t)) [
    | some error ↦ some error
    | none ↦ validate_from (count_image p t) ps
  ]

  -- `none` is the empty text of a message that is accepted.
  unfoldable pub validate_image_parts : List UserPart → Option ImageError
  unfolding validate_from
  validate_image_parts = validate_from no_totals

-- The totals of all the images of a message.
unfoldable pub count_images : List UserPart → Totals → Totals
unfolding count_image
count_images [] t = t
count_images (p ∷ ps) t = count_images ps (count_image p t)

pub record IsWithin (limits : Limits) (t : Totals) : Type 0 where
  pub count_le : t.count ≤ limits.max_count
  pub total_le : t.gained ≤ limits.max_total_bytes + t.lost
  pub encoded_le : t.encoded ≤ limits.max_encoded_bytes

-- An image of its own is small enough and of a kind that is allowed.
abbrev pub Fits : Limits → UserPart → Type 0
Fits limits (text_part text) = Unit {0}
Fits limits (attachment a) =
    ((filled a.mime_type && not (is_allowed_type a.mime_type)) ≡ false)
    × (amount a.bytes ≤ limits.max_bytes)
Fits limits (inline_image d) =
    (is_allowed_type d.mime_type ≡ true)
    × (is_base64 d.image_data ≡ true)
    × (estimate_base64_bytes d.image_data ≤ limits.max_bytes)

abbrev pub AllFit : Limits → List UserPart → Type 0
AllFit limits [] = Unit {0}
AllFit limits (p ∷ ps) = Fits limits p × AllFit limits ps
