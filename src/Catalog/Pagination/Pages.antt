-- ===== src/Catalog/Pagination/Pages.antt =====
-- catalog-pagination.js: the bounds of a page, and a list that the history brings back.
use magento2_chat_ai.Catalog.Pagination.{
  clamp_integer, PaginationSource, SearchArgs, Pagination, next_page_after,
  normalize_catalog_pagination, coverage_of, can_load_more, list_of, token_page, whole_or_zero,
  build_catalog_products_payload,
}
use magento2_chat_ai.JsNumber.{
  JsNumber, nan, infinite, finite, number_from_env, number_from_env_bounds,
}
use magento2_chat_ai.Prelude.{
  ℕ, ◌+◌, ◌*◌, ◌≤◌, ◌<◌, ◌≡◌, refl, sym, ap, ◌∙◌, subst, true, false, not, Option, some, List,
  length, length-take, take, or_else, arith,
}

pub clamp_integer_bounds :
    (x : JsNumber) (lo hi fallback : ℕ)
    → lo ≤ fallback
    → fallback ≤ hi
    → (lo ≤ clamp_integer x lo hi fallback) × (clamp_integer x lo hi fallback ≤ hi)
unfolding clamp_integer
clamp_integer_bounds x lo hi fallback p q = number_from_env_bounds x fallback lo hi p q

-- A whole number within the bounds is left as it is.
pub clamp_integer_whole :
    (n lo hi fallback : ℕ)
    → lo ≤ n
    → n ≤ hi
    → clamp_integer (finite false n false) lo hi fallback ≡ n
unfolding clamp_integer number_from_env
clamp_integer_whole n lo hi fallback p q = omega arith

clamp_integer_floor : (x : JsNumber) (lo hi : ℕ) → lo ≤ clamp_integer x lo hi lo
unfolding clamp_integer number_from_env
clamp_integer_floor nan lo hi = omega arith
clamp_integer_floor (infinite s) lo hi = omega arith
clamp_integer_floor (finite true n f) lo hi = omega arith
clamp_integer_floor (finite false n f) lo hi = omega arith

module _ (source : PaginationSource) (args : SearchArgs) (returned : ℕ) where
  pub normalize_bounds :
      (1 ≤ (normalize_catalog_pagination source args returned).page_size)
      × ((normalize_catalog_pagination source args returned).page_size ≤ 10)
      × (1 ≤ (normalize_catalog_pagination source args returned).page)
      × ((normalize_catalog_pagination source args returned).page ≤ 10000)
  unfolding normalize_catalog_pagination
  normalize_bounds =
      let size = or_else source.page_size (or_else args.limit args.page_size) in
      let (a, b) = clamp_integer_bounds size 1 10 5 (omega arith) (omega arith) in
      let (c, d) =
        clamp_integer_bounds (or_else source.page args.page) 1 10000 1 (omega arith)
          (omega arith) in
      (a, b, c, d)

module _ {I : Type 0} (source : PaginationSource) (args : SearchArgs) (raw_items : List I) where
  -- However many items an answer holds and whatever it says of its pages, a list shows at most a page
  -- of one to ten items.
  pub build_bounds :
      (length (build_catalog_products_payload source args raw_items).items
        ≤ (build_catalog_products_payload source args raw_items).pagination.page_size)
      × (1 ≤ (build_catalog_products_payload source args raw_items).pagination.page_size)
      × ((build_catalog_products_payload source args raw_items).pagination.page_size ≤ 10)
  unfolding build_catalog_products_payload
  build_bounds =
      let (a, b, _, _) = normalize_bounds source args (length raw_items) in
      (
        omega (
          arith,
          length-take (normalize_catalog_pagination source args (length raw_items)).page_size
              raw_items,
        ),
        a,
        b,
      )

le-mul : (n m : ℕ) → 1 ≤ m → n ≤ n * m
le-mul n m h = grind arith

token_page-lem :
    (n page size : ℕ)
    → page + 1 ≤ n
    → page < 20
    → 1 ≤ size
    → size ≤ 10
    → (page < (token_page (finite false n false) (finite false size false)).0)
      × ((token_page (finite false n false) (finite false size false)).1 ≡ size)
unfolding token_page clamp_integer number_from_env
token_page-lem n page size h k l m = omega arith

list_of-continued :
    {I : Type 0} (items : List I) (q : Pagination) (next_page : JsNumber) (asked : ℕ × ℕ)
    → (list_of items q next_page).continuation ≡ some asked
    → (q.has_more ≡ true)
      × (q.page * q.page_size < 20)
      × (asked ≡ token_page next_page (finite false q.page_size false))
unfolding list_of can_load_more
list_of-continued items q next_page asked h = ground arith

next_page-lem :
    (next_page : JsNumber) (page : ℕ)
    → (n : ℕ) × (next_page_after next_page page true ≡ some n) × (page + 1 ≤ n)
unfolding next_page_after
next_page-lem next_page page = (
  clamp_integer next_page (page + 1) 10000 (page + 1),
  refl,
  clamp_integer_floor next_page (page + 1) 10000,
)

module _ {I : Type 0} (source : PaginationSource) (args : SearchArgs) (raw_items : List I) where
  -- A list is continued only if more products are left and the chat shows fewer than twenty cards
  -- so far; the continuation then asks for a later page of the same size.
  pub build-continued :
      (p size : ℕ)
      → (build_catalog_products_payload source args raw_items).continuation ≡ some (p, size)
      → ((build_catalog_products_payload source args raw_items).pagination.page < p)
        × (size ≡ (build_catalog_products_payload source args raw_items).pagination.page_size)
        × ((build_catalog_products_payload source args raw_items).pagination.page * size < 20)
        × ((build_catalog_products_payload source args raw_items).coverage.complete ≡ false)
  unfolding build_catalog_products_payload normalize_catalog_pagination coverage_of whole_or_zero
      list_of
  build-continued p size h =
      let q = normalize_catalog_pagination source args (length raw_items) in
      let (a, b, c, d) = normalize_bounds source args (length raw_items) in
      let (more, room, asked) =
        list_of-continued (take q.page_size raw_items) q (whole_or_zero q.next_page) (p, size) h in
      let (n, next, later) = next_page-lem source.next_page q.page in
      let small : q.page < 20 = omega (arith, le-mul q.page q.page_size a) in
      let (after, same) = token_page-lem n q.page q.page_size later small a b in
      let e : (p, size) ≡ token_page (finite false n false) (finite false q.page_size false) =
        asked
        ∙ ap (λ (o : Option ℕ). token_page (whole_or_zero o) (finite false q.page_size false))
            (ap (next_page_after source.next_page q.page) more ∙ next) in
      let size_same : size ≡ q.page_size = ap (λ (z : ℕ × ℕ). z.1) e ∙ same in
      (
        subst (λ (k : ℕ). q.page < k) (sym (ap (λ (z : ℕ × ℕ). z.0) e)) after,
        size_same,
        subst (λ (k : ℕ). q.page * k < 20) (sym size_same) room,
        ap not more,
      )
