-- ===== src/Catalog/QueryContinuity.antt =====
-- catalog-query-continuity.js: what a search of the agent asks for, in the light of the searches
-- and category lists before it. A field that is text stands for `String(value ?? '')`.
pub mod Provenance
use magento2_chat_ai.JsNumber.{JsNumber, nan, infinite, finite}
use magento2_chat_ai.Prelude.{
  ℕ, Bool, true, false, not, ◌&&◌, ◌||◌, Option, none, some, List, [], ◌∷◌, map, keep, any, ltb,
  length, ◌==◌, if◌then◌else◌, ite, ℕ_discrete,
}
use magento2_chat_ai.Text.{filled, text_eq, Text, codes, trim, fold_case}

-- `Math.max(0, Math.trunc(Number(value) || 0))`, which may be infinite.
pub data Whole : Type 0 where
  number : ℕ → Whole
  infinity : Whole

unfoldable pub whole_of : JsNumber → Whole
whole_of nan = number 0
whole_of (infinite true) = number 0
whole_of (infinite false) = infinity
whole_of (finite true n f) = number 0
whole_of (finite false n f) = number n

unfoldable pub positive : Whole → Bool
positive (number n) = ltb 0 n
positive infinity = true

unfoldable pub whole_eq : Whole → Whole → Bool
whole_eq (number n) (number m) = n == m
whole_eq infinity infinity = true
whole_eq _ _ = false

unfoldable pub has : List Whole → Whole → Bool
unfolding any whole_eq
has ids id = any (λ j. whole_eq j id) ids

pub data ToolName : Type 0 where
  search_products list_categories other_tool : ToolName

pub record Args : Type 0 where
  pub query : Text
  pub category_id : JsNumber
  pub price_preference : Text
  pub required_variant_attribute_code : Text
  pub lookup_purpose : Text

pub record Category : Type 0 where
  pub id : JsNumber
  pub parent_id : JsNumber
  pub product_count : JsNumber

-- What a tool returned: the object is missing, or it has an error, a status, a total and its data.
-- `categories` is the data of a category list, and `items` the length of an array of products.
pub record Content : Type 0 where
  pub error : Bool
  pub status : Text
  pub total : JsNumber
  pub items : Option ℕ
  pub categories : List Category

pub record Continuity : Type 0 where
  pub last_missed_query : Text
  pub last_successful_product_query : Text
  pub discovery_source_query : Text
  pub verified_leaf_category_ids : List Whole

abbrev pub new_continuity : Continuity
new_continuity = record {
  last_missed_query = [];
  last_successful_product_query = [];
  discovery_source_query = [];
  verified_leaf_category_ids = [];
}

unfoldable pub is_lowest_price_preference : Args → Bool
unfolding text_eq trim fold_case
is_lowest_price_preference args =
    text_eq (map fold_case (trim args.price_preference)) (codes "lowest")

-- `total >= 0`, the negative zero included, and then its whole part.
unfoldable pub total_count : JsNumber → Option ℕ
total_count nan = none
total_count (infinite s) = none
total_count (finite true n true) = none
total_count (finite true n false) = if n == 0 then some 0 else none
total_count (finite false n f) = some n

unfoldable pub successful_result_count : Option Content → Option ℕ
unfolding total_count text_eq fold_case
successful_result_count none = none
successful_result_count (some content) =
    if content.error || text_eq (map fold_case content.status) (codes "error")
    then none
    else elim (total_count content.total) [ some n ↦ some n | none ↦ content.items ]

-- The query that a search is given; the other arguments stay.
unfoldable pub search_query : Continuity → Args → Text
unfolding trim filled whole_of positive has is_lowest_price_preference text_eq
search_query s args =
    let query = trim args.query in
    let category_id = whole_of args.category_id in
    let in_category = positive category_id in
    let is_verified_leaf = in_category && has s.verified_leaf_category_ids category_id in
    if filled (trim args.required_variant_attribute_code)
    then query
    else if in_category
        && not is_verified_leaf
        && is_lowest_price_preference args
        && not (filled query)
    then []
    else if in_category && filled s.discovery_source_query && not (filled query)
    then s.discovery_source_query
    else if is_verified_leaf
        && filled s.last_missed_query
        && (not (filled query) || text_eq query s.last_missed_query)
    then []
    else if filled query
    then query
    else if filled s.last_missed_query && in_category
    then s.last_missed_query
    else args.query

unfoldable pub normalize : Continuity → ToolName → Args → Args
unfolding search_query
normalize s search_products args = record args { query = search_query s args }
normalize s list_categories args = args
normalize s other_tool args = args

-- `verifiedLeafCategoryIds` of a category list.
unfoldable pub is_leaf : List Whole → Category → Bool
unfolding positive whole_of has
is_leaf parent_ids c =
    positive (whole_of c.id)
    && positive (whole_of c.product_count)
    && not (has parent_ids (whole_of c.id))

unfoldable pub leaf_ids : List Category → List Whole
unfolding is_leaf keep positive whole_of
leaf_ids categories =
    let parent_ids = keep positive (map (λ (c : Category). whole_of c.parent_id) categories) in
    map (λ (c : Category). whole_of c.id) (keep (is_leaf parent_ids) categories)

unfoldable pub observe_categories : Continuity → Args → Option Content → Continuity
unfolding leaf_ids text_eq
observe_categories s args none = s
observe_categories s args (some content) = if content.error then s else record s {
  verified_leaf_category_ids = leaf_ids content.categories;
  discovery_source_query =
      if text_eq args.lookup_purpose (codes "product_discovery")
      then s.last_successful_product_query
      else [];
}

-- The two queries that a search leaves, by how much it found.
unfoldable pub record_count : Continuity → Text → Option ℕ → Continuity
unfolding filled
record_count s query none = s
record_count s query (some n) =
    if ltb 0 n
    then record s { last_missed_query = []; last_successful_product_query = query }
    else if filled query
    then record s { last_missed_query = query }
    else s

unfoldable pub end_discovery : Args → Option ℕ → Continuity → Continuity
unfolding positive whole_of
end_discovery args none s = s
end_discovery args (some n) s =
    if positive (whole_of args.category_id) then record s { discovery_source_query = [] } else s

unfoldable pub observe : Continuity → ToolName → Args → Option Content → Continuity
unfolding observe_categories successful_result_count record_count end_discovery trim
observe s list_categories args content = observe_categories s args content
observe s search_products args content =
    let count = successful_result_count content in
    end_discovery args count (record_count s (trim args.query) count)
observe s other_tool args content = s
