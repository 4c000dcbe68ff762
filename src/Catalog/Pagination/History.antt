-- ===== src/Catalog/Pagination/History.antt =====
-- catalog-pagination.js: a list that the history brings back.
use magento2_chat_ai.Catalog.Pagination.{
  PaginationSource, SearchArgs, Pagination, total_has_more, known_total, list_of,
  normalize_catalog_pagination, ProductList, whole_or_zero, build_catalog_products_payload,
  rehydrated_pagination, rehydrate_catalog_continuation, can_load_more, max_safe_integer,
}
use magento2_chat_ai.Catalog.Pagination.Pages.{
  clamp_integer_bounds, clamp_integer_whole, normalize_bounds,
}
use magento2_chat_ai.JsNumber.{JsNumber, finite}
use magento2_chat_ai.Prelude.{
  ℕ, ◌+◌, ◌≤◌, ◌≡◌, refl, sym, ap, ◌∙◌, Bool, true, false, ◌||◌, Option, none, some, List, length,
  length-take, take, Bool-cases, inl, inr, arith, if◌then◌else◌,
}

or-twice : (a b : Bool) → ((a || b) || b) ≡ (a || b)
or-twice a b = ground arith

-- A pagination that is within its bounds is read again as it was, but for the next page.
rehydrated-same :
    (returned page_size page : ℕ) (total : Option ℕ) (verified has_more : Bool)
    → 1 ≤ page_size
    → page_size ≤ 10
    → 1 ≤ page
    → page ≤ 10000
    → known_total verified (whole_or_zero total) returned ≡ total
    → rehydrated_pagination returned
        (finite false page_size false)
        (finite false page false)
        (whole_or_zero total)
        verified
        has_more
      ≡ record {
        total = total;
        total_is_verified = verified;
        page = page;
        page_size = page_size;
        returned = returned;
        has_more = has_more || total_has_more total page page_size;
        next_page =
            if has_more || total_has_more total page page_size then some (page + 1) else none;
      }
unfolding rehydrated_pagination
rehydrated-same returned page_size page total verified has_more a b c d e =
    rw (e, clamp_integer_whole page_size 1 10 5 a b, clamp_integer_whole page 1 10000 1 c d) refl

known_total-twice :
    (verified : Bool) (total : JsNumber) (returned shown : ℕ)
    → shown ≤ returned
    → returned ≤ max_safe_integer
    → known_total verified (whole_or_zero (known_total verified total returned)) shown
      ≡ known_total verified total returned
unfolding known_total whole_or_zero
known_total-twice false total returned shown h k = refl
known_total-twice true total returned shown h k =
    let (_, b) = clamp_integer_bounds total 0 max_safe_integer returned (omega arith) k in
    ap some (omega arith)

module _ {I : Type 0} (items : List I) (q : Pagination) where
  -- Where no more is left, the page that would come next does not matter.
  list_of-next_page :
      (n : ℕ)
      → q.next_page ≡ (if q.has_more then some n else none)
      → list_of items q (finite false n false) ≡ list_of items q (whole_or_zero q.next_page)
  unfolding list_of can_load_more whole_or_zero
  list_of-next_page n h = elim (Bool-cases q.has_more) [
    | inl more ↦
        let e : q.next_page ≡ some n = h ∙ ap (λ (b : Bool). if b then some n else none) more in
        ap (λ (o : Option ℕ). list_of items q (whole_or_zero o)) (sym e)
    | inr over ↦ simp over
  ]

-- What the history keeps of a list, read again.
unfoldable pub brought_back : {I : Type 0} → ProductList I → ProductList I
unfolding rehydrate_catalog_continuation
brought_back list =
    rehydrate_catalog_continuation list.items (finite false list.pagination.page_size false)
      (finite false list.pagination.page false) (whole_or_zero list.pagination.total)
      list.pagination.total_is_verified list.pagination.has_more

record_lem :
    (q : Pagination) (returned : ℕ) (has_more : Bool) (next_page : Option ℕ)
    → returned ≡ q.returned
    → has_more ≡ q.has_more
    → next_page ≡ q.next_page
    → record {
      total = q.total;
      total_is_verified = q.total_is_verified;
      page = q.page;
      page_size = q.page_size;
      returned = returned;
      has_more = has_more;
      next_page = next_page;
    }
      ≡ q
record_lem q returned has_more next_page a b c = ground arith

module _ {I : Type 0} (items : List I) (q : Pagination) where
  rehydrate-stored :
      1 ≤ q.page_size
      → q.page_size ≤ 10
      → 1 ≤ q.page
      → q.page ≤ 10000
      → known_total q.total_is_verified (whole_or_zero q.total) (length items) ≡ q.total
      → length items ≡ q.returned
      → (q.has_more || total_has_more q.total q.page q.page_size) ≡ q.has_more
      → q.next_page ≡ (if q.has_more then some (q.page + 1) else none)
      → brought_back (list_of items q (whole_or_zero q.next_page))
        ≡ list_of items q (whole_or_zero q.next_page)
  unfolding brought_back list_of
  rehydrate-stored a b c d e f g h =
      let more = q.has_more || total_has_more q.total q.page q.page_size in
      let same =
        rehydrated-same (length items) q.page_size q.page q.total q.total_is_verified q.has_more a b
          c d e
        ∙ record_lem q (length items) more (if more then some (q.page + 1) else none) f g
            (ap (λ (b : Bool). if b then some (q.page + 1) else none) g ∙ sym h) in
      ap (λ (p : Pagination). list_of items p (finite false (p.page + 1) false)) same
      ∙ list_of-next_page items q (q.page + 1) h

module _ {I : Type 0} (source : PaginationSource) (args : SearchArgs) (raw_items : List I) where
  -- A list that is stored and brought back is the list that was built, with the same continuation,
  -- where Magento named the following page as the next one and sent a safe number of items.
  pub brought_back-build :
      length raw_items ≤ max_safe_integer
      → (build_catalog_products_payload source args raw_items).pagination.next_page ≡ (
          if (build_catalog_products_payload source args raw_items).pagination.has_more
          then some ((build_catalog_products_payload source args raw_items).pagination.page + 1)
          else none)
      → brought_back (build_catalog_products_payload source args raw_items)
        ≡ build_catalog_products_payload source args raw_items
  unfolding build_catalog_products_payload normalize_catalog_pagination list_of
  brought_back-build fits next =
      let q = normalize_catalog_pagination source args (length raw_items) in
      let items = take q.page_size raw_items in
      let (a, b, c, d) = normalize_bounds source args (length raw_items) in
      rehydrate-stored items (record q { returned = length items }) a b c d
        (known_total-twice source.total_is_verified source.total (length raw_items) (length items)
          (omega (arith, length-take q.page_size raw_items)) fits)
        refl (or-twice source.has_more (total_has_more q.total q.page q.page_size)) next
