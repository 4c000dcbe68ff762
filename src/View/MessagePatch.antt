-- ===== src/View/MessagePatch.antt =====
-- `patchMessageHtml` of stream-renderer.js: the element children of a message and its two marks in
-- `dataset`. What `innerHTML` makes of a text, and reads back, is the browser's and an argument.
pub mod Shown
pub mod Stable
use magento2_chat_ai.Prelude.{
  ℕ, suc, ◌+◌, ◌*◌, ◌≡◌, ◌↔◌, refl, Bool, true, false, not, ◌&&◌, Option, none, some, List, [], ◌∷◌,
  ◌++◌, length, take, keep, leb, ◌==◌, min, arith, if◌then◌else◌, or_else,
}
use magento2_chat_ai.Text.{Text, trim_start, text_eq, text_eq_iff}

unfoldable pub text_option_eq : Option Text → Text → Bool
unfolding text_eq
text_option_eq none t = false
text_option_eq (some s) t = text_eq s t

-- An element, by its identity, with `dataset.blockHtml` and the delay of its fade in milliseconds.
pub record Node : Type 0 where
  pub identity : ℕ
  pub block_html : Option Text
  pub fade_delay : Option ℕ

-- `next_identity` numbers the elements that are made.
pub record Element : Type 0 where
  pub children : List Node
  pub rendered_blocks : Option ℕ
  pub block_signature : Option Text
  pub next_identity : ℕ

-- `!(String(block).trim().length > 0)`: what is left once the front is trimmed is only space too.
unfoldable pub is_blank : Text → Bool
unfolding trim_start
is_blank block = length (trim_start block) == 0

-- `nextBlocks.join('\u0000')`.
unfoldable pub signature_of : List Text → Text
signature_of [] = []
signature_of (b ∷ []) = b
signature_of (b ∷ c ∷ bs) = b ++ 0 ∷ signature_of (c ∷ bs)

-- The counters of the loop: the index, the blocks that were animated, and the next identity.
pub record Cursor : Type 0 where
  pub index : ℕ
  pub appended : ℕ
  pub identity : ℕ

unfoldable pub is_new_block : Bool → ℕ → Cursor → Bool
is_new_block animate previous_count c = animate && leb previous_count c.index

unfoldable pub new_node : Bool → ℕ → Cursor → Text → Node
unfolding is_new_block
new_node animate previous_count c block = record {
  identity = c.identity;
  block_html = some block;
  fade_delay = if is_new_block animate previous_count c then some (min c.appended 3 * 60) else none;
}

unfoldable pub after_new : Bool → ℕ → Cursor → Cursor
unfolding is_new_block
after_new animate previous_count c = record {
  index = suc c.index;
  appended = if is_new_block animate previous_count c then suc c.appended else c.appended;
  identity = suc c.identity;
}

unfoldable pub is_stable : Node → Text → Bool
unfolding text_option_eq
is_stable existing block = text_option_eq existing.block_html block

-- `nextBlocks.forEach(…)`: the children, and the next identity.
unfoldable pub patch_blocks : Bool → ℕ → Cursor → List Text → List Node → List Node × ℕ
unfolding new_node after_new is_stable
patch_blocks animate previous_count c [] kids = (kids, c.identity)
patch_blocks animate previous_count c (b ∷ bs) [] =
    let (kids, identity) =
      patch_blocks animate previous_count (after_new animate previous_count c) bs [] in
    (new_node animate previous_count c b ∷ kids, identity)
patch_blocks animate previous_count c (b ∷ bs) (k ∷ ks) =
    let stable = is_stable k b in
    let c' =
      if stable then record c { index = suc c.index } else after_new animate previous_count c in
    let (kids, identity) = patch_blocks animate previous_count c' bs ks in
    ((if stable then k else new_node animate previous_count c b) ∷ kids, identity)

unfoldable pub write_blocks : Bool → List Text → Element → Element
unfolding patch_blocks signature_of
write_blocks animate next_blocks e =
    let start : Cursor = record { index = 0; appended = 0; identity = e.next_identity } in
    let (kids, identity) =
      patch_blocks animate (or_else e.rendered_blocks 0) start next_blocks e.children in
    record {
      children = take (length next_blocks) kids;
      rendered_blocks = some (length next_blocks);
      block_signature = some (signature_of next_blocks);
      next_identity = identity;
    }

-- The branch for an array of blocks.
unfoldable pub patch_message_blocks : Bool → List Text → Element → Element
unfolding is_blank text_option_eq write_blocks signature_of
patch_message_blocks animate html_content e =
    let next_blocks = keep (λ b. not (is_blank b)) html_content in
    if text_option_eq e.block_signature (signature_of next_blocks)
    then e
    else write_blocks animate next_blocks e

-- The branch for one text, such as a message of the history.
unfoldable pub patch_message_text :
    (Text → ℕ → List Node × ℕ) → (List Node → Text) → Text → Element → Element
unfolding text_eq
patch_message_text parse inner_html next_html e =
    if text_eq (inner_html e.children) next_html
    then record e { rendered_blocks = none }
    else (let (kids, identity) = parse next_html e.next_identity in
        record e { children = kids; rendered_blocks = none; next_identity = identity })

abbrev pub new_element : Element
new_element = record {
  children = [];
  rendered_blocks = none;
  block_signature = none;
  next_identity = 0;
}
