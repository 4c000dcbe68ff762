-- ===== src/Media/ImageAdmission.antt =====
-- image-admission.js: what a vision request costs, and its admission by a batch of three budgets.
use magento2_chat_ai.JsMap
use magento2_chat_ai.JsNumber.{JsNumber, nan, infinite, finite, whole}
use magento2_chat_ai.Prelude.{
  ℕ, ◌+◌, ◌*◌, ◌/◌, ◌≤◌, ◌≡◌, refl, Bool, true, false, List, [], ◌∷◌, leb, if◌then◌else◌, arith,
}
use magento2_chat_ai.Runtime.RateLimit.{Rates}
use magento2_chat_ai.Runtime.Batch.{Entry, BatchAdmission, consume_rate_limit_batch}
use magento2_chat_ai.Runtime.Batch.Atomic.{counted, batch_refused}

-- A part of a message: a reference with its number of bytes, 0 if it is missing, inline data with
-- the length of its text in bytes, or anything else.
pub data Part : Type 0 where
  attachment inline_data : ℕ → Part
  other : Part

unfoldable pub positive_integer : JsNumber → ℕ → ℕ
positive_integer nan fallback = fallback
positive_integer (infinite s) fallback = fallback
positive_integer (finite true n f) fallback = fallback
positive_integer (finite false n true) fallback = n
positive_integer (finite false n false) fallback = if leb n 0 then fallback else n

unfoldable pub image_count : List Part → ℕ
image_count [] = 0
image_count (attachment bytes ∷ ps) = image_count ps + 1
image_count (inline_data length ∷ ps) =
    let rest = image_count ps in if leb length 0 then rest else rest + 1
image_count (other ∷ ps) = image_count ps

-- `Math.ceil(bytes * 4 / 3)`, with 1 MiB for missing bytes.
unfoldable pub encoded_size : ℕ → ℕ
encoded_size bytes = ((if leb bytes 0 then 1048576 else bytes) * 4 + 2) / 3

unfoldable pub encoded_bytes : List Part → ℕ
unfolding encoded_size
encoded_bytes [] = 0
encoded_bytes (attachment bytes ∷ ps) = encoded_bytes ps + encoded_size bytes
encoded_bytes (inline_data length ∷ ps) = encoded_bytes ps + length
encoded_bytes (other ∷ ps) = encoded_bytes ps

abbrev pub binary_bytes : ℕ → ℕ
binary_bytes encoded = encoded * 3 / 4

unfoldable pub units_of : ℕ → ℕ → ℕ
units_of count encoded =
    if leb count 0 then 0 else 1 + count * 2 + (binary_bytes encoded + 1048575) / 1048576

unfoldable pub image_request_cost : List Part → ℕ
unfolding units_of image_count encoded_bytes
image_request_cost parts = units_of (image_count parts) (encoded_bytes parts)

pub record Config : Type 0 where
  pub cost_units_per_minute : JsNumber
  pub network_cost_units_per_minute : JsNumber
  pub global_cost_units_per_minute : JsNumber

-- The identities `${identity}:vision-cost` of the client, of its network and of everybody.
pub record Identities (I : Type 0) : Type 0 where
  pub client : I
  pub network : I
  pub everybody : I

unfoldable pub entry : {I : Type 0} → I → ℕ → ℕ → Entry I
entry identity budget units = record {
  identity = identity;
  policy = record { limit = whole budget; window_ms = whole 60000; amount = whole units };
}

unfoldable pub policies : {I : Type 0} → Config → Identities I → ℕ → List (Entry I)
unfolding entry positive_integer
policies c ids units =
    entry ids.client (positive_integer c.cost_units_per_minute 30) units
    ∷ entry ids.network (positive_integer c.network_cost_units_per_minute 120) units
    ∷ entry ids.everybody (positive_integer c.global_cost_units_per_minute 1200) units
    ∷ []

-- Without images the request is admitted as it is; otherwise the batch decides.
unfoldable pub admitted_by :
    {I K : Type 0} → Bool → BatchAdmission I × Rates K → Rates K → Bool × Rates K
admitted_by true r m = (true, m)
admitted_by false r m = (r.0.allowed, r.1)

module _ {I K : Type 0} (dec : Discrete K) (hash : I → K) where
  -- Whether the request is admitted, over a runtime that has `consumeRateLimitBatch`.
  unfoldable pub admit_image_request :
      ℕ → Config → Identities I → List Part → Rates K → Bool × Rates K
  unfolding policies image_request_cost admitted_by
  admit_image_request now c ids parts m =
      admitted_by (leb (image_count parts) 0)
        (consume_rate_limit_batch dec hash now (policies c ids (image_request_cost parts)) m) m

  admitted_by-refused :
      (now : ℕ) (no_image : Bool) (es : List (Entry I)) (m : Rates K) (j : K)
      → (admitted_by no_image (consume_rate_limit_batch dec hash now es m) m).0 ≡ false
      → counted now
          (JsMap.get dec j (admitted_by no_image (consume_rate_limit_batch dec hash now es m) m).1)
        ≡ counted now (JsMap.get dec j m)
  unfolding admitted_by
  admitted_by-refused now true es m j refused = refl
  admitted_by-refused now false es m j refused = batch_refused dec hash now es m j refused

  -- A vision request that is refused charges none of its budgets, neither of the client nor of the
  -- network nor of the gateway, nor any other counter.
  pub admit_refused-counted :
      (now : ℕ) (c : Config) (ids : Identities I) (parts : List Part) (m : Rates K) (j : K)
      → (admit_image_request now c ids parts m).0 ≡ false
      → counted now (JsMap.get dec j (admit_image_request now c ids parts m).1)
        ≡ counted now (JsMap.get dec j m)
  unfolding admit_image_request
  admit_refused-counted now c ids parts m j refused =
      admitted_by-refused now (leb (image_count parts) 0)
        (policies c ids (image_request_cost parts)) m j refused

-- Every further part of a message leaves its cost the same or raises it, and a message with images
-- costs at least one unit and two for each of them.
pub image_request_cost-cons :
    (p : Part) (parts : List Part)
    → (image_request_cost parts ≤ image_request_cost (p ∷ parts))
      × ((if leb (image_count parts) 0 then 0 else 1 + image_count parts * 2)
          ≤ image_request_cost parts)
unfolding image_request_cost image_count encoded_bytes units_of
image_request_cost-cons (attachment bytes) parts = (ground arith, ground arith)
image_request_cost-cons (inline_data length) parts = (ground arith, ground arith)
image_request_cost-cons other parts = (ground arith, ground arith)
