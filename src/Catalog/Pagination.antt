-- ===== src/Catalog/Pagination.antt =====
-- catalog-pagination.js: the pages of a product list, as a search returns them and as the history
-- brings them back. A value is given as what `Number(…)` makes of it.
pub mod Pages
pub mod History
use magento2_chat_ai.JsNumber.{JsNumber, nan, infinite, finite, number_from_env}
use magento2_chat_ai.Prelude.{
  ℕ, ◌+◌, ◌-◌, ◌*◌, Bool, true, false, ◌&&◌, ◌||◌, not, Option, none, some, List, [], ◌∷◌, length,
  take, keep, map, max, min, ltb, if◌then◌else◌, or_else,
}

abbrev pub default_catalog_page_size : ℕ
default_catalog_page_size = 5

abbrev pub max_catalog_page_size : ℕ
max_catalog_page_size = 10

abbrev pub max_catalog_cards_in_chat : ℕ
max_catalog_cards_in_chat = 20

abbrev pub max_safe_integer : ℕ
max_safe_integer = 9007199254740991

-- `clampInteger(value, min, max, fallback)`, for bounds that are not negative: the same clamp as that
-- of the settings.
unfoldable pub clamp_integer : JsNumber → ℕ → ℕ → ℕ → ℕ
unfolding number_from_env
clamp_integer value lo hi fallback = number_from_env value fallback lo hi

-- `content.meta.pagination` of Magento; `none` is a missing value or `null`.
pub record PaginationSource : Type 0 where
  pub page_size : Option JsNumber
  pub page : Option JsNumber
  pub total : JsNumber
  pub next_page : JsNumber
  pub total_is_verified : Bool
  pub has_more : Bool

-- The arguments of the search that page it.
pub record SearchArgs : Type 0 where
  pub limit : Option JsNumber
  pub page_size : JsNumber
  pub page : JsNumber

pub record Pagination : Type 0 where
  pub total : Option ℕ
  pub total_is_verified : Bool
  pub page : ℕ
  pub page_size : ℕ
  pub returned : ℕ
  pub has_more : Bool
  pub next_page : Option ℕ

-- `totalIsVerified && (page * pageSize) < total`.
unfoldable pub total_has_more : Option ℕ → ℕ → ℕ → Bool
total_has_more none page page_size = false
total_has_more (some total) page page_size = ltb (page * page_size) total

unfoldable pub next_page_after : JsNumber → ℕ → Bool → Option ℕ
unfolding clamp_integer
next_page_after next_page page has_more =
    if has_more then some (clamp_integer next_page (page + 1) 10000 (page + 1)) else none

unfoldable pub known_total : Bool → JsNumber → ℕ → Option ℕ
unfolding clamp_integer
known_total verified total returned =
    if verified then some (max returned (clamp_integer total 0 max_safe_integer returned)) else none

unfoldable pub normalize_catalog_pagination : PaginationSource → SearchArgs → ℕ → Pagination
unfolding clamp_integer total_has_more next_page_after known_total
normalize_catalog_pagination source args returned =
    let page_size =
      clamp_integer (or_else source.page_size (or_else args.limit args.page_size)) 1
        max_catalog_page_size default_catalog_page_size in
    let page = clamp_integer (or_else source.page args.page) 1 10000 1 in
    let total = known_total source.total_is_verified source.total returned in
    let has_more = source.has_more || total_has_more total page page_size in
    record {
      total = total;
      total_is_verified = source.total_is_verified;
      page = page;
      page_size = page_size;
      returned = returned;
      has_more = has_more;
      next_page = next_page_after source.next_page page has_more;
    }

pub record Coverage : Type 0 where
  pub shown : ℕ
  pub total : Option ℕ
  pub remaining : Option ℕ
  pub complete : Bool

-- `totalIsVerified ? Math.max(0, total - items.length) : null`.
unfoldable pub remaining_of : Option ℕ → ℕ → Option ℕ
remaining_of none shown = none
remaining_of (some total) shown = some (total - shown)

unfoldable pub coverage_of : Option ℕ → ℕ → Bool → Coverage
unfolding remaining_of
coverage_of total shown has_more = record {
  shown = shown;
  total = total;
  remaining = remaining_of total shown;
  complete = not has_more;
}

-- `hasMore && cardsShownAfterPage < MAX_CATALOG_CARDS_IN_CHAT`.
unfoldable pub can_load_more : Bool → ℕ → ℕ → Bool
can_load_more has_more page page_size = has_more && ltb (page * page_size) max_catalog_cards_in_chat

-- The page and the size that a continuation asks for, as its token holds them.
unfoldable pub token_page : JsNumber → JsNumber → ℕ × ℕ
unfolding clamp_integer
token_page page page_size = (
  clamp_integer page 2 10000 2,
  clamp_integer page_size 1 max_catalog_page_size default_catalog_page_size,
)

-- A list of products as it is shown and as it is kept: the items, what is known about the others, and
-- the page and size that the continuation asks for. A token is never empty, so `Boolean(continuation)` is
-- whether there is one.
pub record ProductList (I : Type 0) : Type 0 where
  pub items : List I
  pub coverage : Coverage
  pub pagination : Pagination
  pub continuation : Option (ℕ × ℕ)
  pub truncated_for_chat : Bool

unfoldable pub whole_or_zero : Option ℕ → JsNumber
whole_or_zero none = finite false 0 false
whole_or_zero (some n) = finite false n false

-- The pagination of a stored list, read again.
unfoldable pub rehydrated_pagination : ℕ → JsNumber → JsNumber → JsNumber → Bool → Bool → Pagination
unfolding clamp_integer known_total total_has_more
rehydrated_pagination returned stored_page_size stored_page stored_total verified has_more =
    let page_size =
      clamp_integer stored_page_size 1 max_catalog_page_size default_catalog_page_size in
    let page = clamp_integer stored_page 1 10000 1 in
    let total = known_total verified stored_total returned in
    let more_left = has_more || total_has_more total page page_size in
    record {
      total = total;
      total_is_verified = verified;
      page = page;
      page_size = page_size;
      returned = returned;
      has_more = more_left;
      next_page = if more_left then some (page + 1) else none;
    }

module _ {I : Type 0} where
  -- The list of a page, with a continuation for the page that comes next where the chat has room.
  unfoldable pub list_of : List I → Pagination → JsNumber → ProductList I
  unfolding coverage_of can_load_more token_page
  list_of items pagination next_page =
      let more = can_load_more pagination.has_more pagination.page pagination.page_size in
      record {
        items = items;
        coverage = coverage_of pagination.total (length items) pagination.has_more;
        pagination = pagination;
        continuation =
            if more
            then some (token_page next_page (finite false pagination.page_size false))
            else none;
        truncated_for_chat = pagination.has_more && not more;
      }

  -- `buildCatalogProductsPayload`, of the raw items of the answer.
  unfoldable pub build_catalog_products_payload :
      PaginationSource → SearchArgs → List I → ProductList I
  unfolding normalize_catalog_pagination list_of whole_or_zero
  build_catalog_products_payload source args raw_items =
      let normalized = normalize_catalog_pagination source args (length raw_items) in
      let items = take normalized.page_size raw_items in
      list_of items (record normalized { returned = length items })
        (whole_or_zero normalized.next_page)

  -- `rehydrateCatalogContinuation`, of the items and the pagination of a stored list that has one.
  unfoldable pub rehydrate_catalog_continuation :
      List I → JsNumber → JsNumber → JsNumber → Bool → Bool → ProductList I
  unfolding rehydrated_pagination list_of
  rehydrate_catalog_continuation items stored_page_size stored_page stored_total verified has_more =
      let pagination =
        rehydrated_pagination (length items) stored_page_size stored_page stored_total verified
          has_more in
      list_of items pagination (finite false (pagination.page + 1) false)
