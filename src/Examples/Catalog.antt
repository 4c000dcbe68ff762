-- ===== src/Examples/Catalog.antt =====
-- Lists of products, as a search builds them and as the history brings them back.
use magento2_chat_ai.Catalog.Pagination.{
  PaginationSource, SearchArgs, build_catalog_products_payload,
}
use magento2_chat_ai.Catalog.Pagination.History.{brought_back, brought_back-build}
use magento2_chat_ai.Catalog.Pagination.Pages.{build-continued}
use magento2_chat_ai.JsNumber.{nan, whole}
use magento2_chat_ai.Prelude.{ℕ, ◌*◌, ◌<◌, ◌≡◌, refl, none, some, List, [], ◌∷◌, true, false, arith}

abbrev source : PaginationSource
source = record {
  page_size = some (whole 2);
  page = some (whole 3);
  total = whole 9;
  next_page = whole 4;
  total_is_verified = true;
  has_more = true;
}

abbrev args : SearchArgs
args = record { limit = none; page_size = nan; page = nan }

abbrev found : List ℕ
found = 11 ∷ 12 ∷ 13 ∷ []

build-continued_example :
    ((build_catalog_products_payload source args found).pagination.page < 4)
    × (2 ≡ (build_catalog_products_payload source args found).pagination.page_size)
    × ((build_catalog_products_payload source args found).pagination.page * 2 < 20)
    × ((build_catalog_products_payload source args found).coverage.complete ≡ false)
unfolding build_catalog_products_payload
build-continued_example = build-continued source args found 4 2 refl

brought_back-build_example :
    brought_back (build_catalog_products_payload source args found)
    ≡ build_catalog_products_payload source args found
unfolding build_catalog_products_payload
brought_back-build_example = brought_back-build source args found (omega arith) refl
