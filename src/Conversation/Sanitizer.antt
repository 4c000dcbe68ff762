-- ===== src/Conversation/Sanitizer.antt =====
-- customer-response-sanitizer.js: what is taken out of the model's prose, and the stream that holds
-- back the end of the text. A text is its UTF-16 code units.
pub mod Pieces
use magento2_chat_ai.Prelude.{
  ℕ, zero, suc, ◌+◌, ◌-◌, ◌<◌, Bool, true, false, not, ◌&&◌, ◌||◌, List, [], ◌∷◌, ◌++◌, Option,
  none, some, length, take, drop, any, leb, ltb, ◌==◌, max, if◌then◌else◌,
}
use magento2_chat_ai.Text.{
  Text, codes, between, is_word, is_space, after_prefix, fold_case, run_length, starts_with,
  first_is, trim_start, Match, Pattern, replace_all,
}

abbrev pub internal_identifiers : List Text
internal_identifiers =
    codes "getProductAvailability"
    ∷ codes "searchProducts"
    ∷ codes "listCategories"
    ∷ codes "updateCartItem"
    ∷ codes "removeFromCart"
    ∷ codes "getCustomerInfo"
    ∷ codes "getRecentOrders"
    ∷ codes "getGuestOrders"
    ∷ codes "getGuestOrderDetails"
    ∷ codes "getOrderDetails"
    ∷ codes "updateGuestOrderAddress"
    ∷ codes "updateOrderAddress"
    ∷ codes "getCustomerAddresses"
    ∷ codes "updateCustomerAddress"
    ∷ codes "getActiveCoupons"
    ∷ codes "addToCart"
    ∷ codes "CATALOG_CONTEXT"
    ∷ []

-- `Math.max(...names.map((value) => value.length))`.
unfoldable pub max_length : List Text → ℕ
max_length [] = 0
max_length (x ∷ xs) = max (length x) (max_length xs)

unfoldable pub max_identifier_length : ℕ
unfolding max_length
max_identifier_length = max_length internal_identifiers

-- The first of the names that stands here and ends at a word boundary.
unfoldable pub identifier_at : List Text → Text → Match
unfolding after_prefix fold_case first_is is_word
identifier_at [] s = none
identifier_at (x ∷ xs) s = elim (after_prefix fold_case x s) [
  | some rest ↦ if first_is is_word rest then identifier_at xs s else some (length x, [])
  | none ↦ identifier_at xs s
]

-- `\b(?:…)\b` with the flags `gi`.
unfoldable pub internal_identifier_pattern : Pattern
unfolding identifier_at
internal_identifier_pattern w s = if w then none else identifier_at internal_identifiers s

-- `[\u{10000}-\u{10FFFF}]` with the flag `u`: a high surrogate before a low one.
unfoldable pub unsupported_unicode_pattern : Pattern
unfolding between first_is
unsupported_unicode_pattern w [] = none
unsupported_unicode_pattern w (c ∷ s) =
    if between 0xd800 c 0xdbff && first_is (λ d. between 0xdc00 d 0xdfff) s
    then some (2, [])
    else none

-- `\[[^\]\n]+\]\(`.
unfoldable pub is_link : Text → Bool
unfolding run_length starts_with
is_link [] = false
is_link (c ∷ s) =
    let n = run_length (λ d. not (d == b']' || d == 10)) s in
    c == b'[' && ltb 0 n && starts_with (codes "](") (drop n s)

-- `https?:\/\/`.
unfoldable pub is_url : Text → Bool
unfolding starts_with
is_url s = starts_with (codes "http://") s || starts_with (codes "https://") s

-- `\?{2,}(?=\s*(?:\[[^\]\n]+\]\(|https?:\/\/))`. Neither space nor question mark begins a link, so
-- only the longest run of each can match.
unfoldable pub malformed_icon_pattern : Pattern
unfolding run_length trim_start is_link is_url
malformed_icon_pattern w s =
    let n = run_length (λ c. c == b'?') s in
    let rest = trim_start (drop n s) in
    if ltb 1 n && (is_link rest || is_url rest) then some (n, []) else none

-- `[ \t]{2,}`.
unfoldable pub double_space_pattern : Pattern
unfolding run_length
double_space_pattern w s =
    let n = run_length (λ c. c == 32 || c == 9) s in if ltb 1 n then some (n, 32 ∷ []) else none

-- `[,.;:!?]`.
unfoldable pub is_punctuation : ℕ → Bool
unfolding any
is_punctuation c = any (λ d. d == c) (codes ",.;:!?")

-- `\s+([,.;:!?])`, which puts the mark back.
unfoldable pub spaced_mark_pattern : Pattern
unfolding run_length is_space first_is is_punctuation
spaced_mark_pattern w s =
    let n = run_length is_space s in
    let rest = drop n s in
    if ltb 0 n && first_is is_punctuation rest then some (n + 1, take 1 rest) else none

unfoldable pub sanitize_customer_response : Text → Text
unfolding replace_all internal_identifier_pattern unsupported_unicode_pattern malformed_icon_pattern
    double_space_pattern spaced_mark_pattern
sanitize_customer_response value = replace_all spaced_mark_pattern (
    replace_all double_space_pattern (
      replace_all malformed_icon_pattern
        (replace_all unsupported_unicode_pattern (replace_all internal_identifier_pattern value))))

pub record Stream : Type 0 where
  pub pending : Text
  pub has_emitted_text : Bool

abbrev pub new_stream : Stream
new_stream = record { pending = []; has_emitted_text = false }

unfoldable pub is_empty : Text → Bool
is_empty [] = true
is_empty (c ∷ s) = false

-- The text that is emitted, and `hasEmittedText` after it.
unfoldable pub prepare_for_emission : Bool → Text → Text × Bool
unfolding trim_start is_empty
prepare_for_emission emitted value =
    let safe_text = sanitize_customer_response value in
    let trimmed = if emitted then safe_text else trim_start safe_text in
    (trimmed, emitted || not (is_empty trimmed))

unfoldable pub hold_back : ℕ
unfolding max_identifier_length
hold_back = max_identifier_length - 1

unfoldable pub push : Text → Stream → Text × Stream
unfolding prepare_for_emission
push value st =
    let pending = st.pending ++ value in
    let safe_length = length pending - hold_back in
    let (safe_text, emitted) =
      prepare_for_emission st.has_emitted_text (take safe_length pending) in
    if safe_length == 0
    then ([], record st { pending = pending })
    else (safe_text, record { pending = drop safe_length pending; has_emitted_text = emitted })

unfoldable pub flush : Stream → Text × Stream
unfolding prepare_for_emission
flush st =
    let (safe_text, emitted) = prepare_for_emission st.has_emitted_text st.pending in
    (safe_text, record { pending = []; has_emitted_text = emitted })

unfoldable pub discard : Stream → Stream
discard st = record { pending = []; has_emitted_text = false }
