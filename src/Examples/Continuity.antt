-- ===== src/Examples/Continuity.antt =====
-- A turn that searches, misses and narrows its search.
use magento2_chat_ai.Catalog.QueryContinuity.{
  search_products, list_categories, Args, Content, new_continuity, normalize, observe, positive,
  whole_of,
}
use magento2_chat_ai.Catalog.QueryContinuity.Provenance.{
  Observation, observe_all, searched, HasOwn, Known, normalize-Known,
}
use magento2_chat_ai.JsNumber.{nan, whole}
use magento2_chat_ai.Prelude.{true, ℕ, ◌≡◌, ◌⊎◌, refl, none, some, List, [], ◌∷◌, false}
use magento2_chat_ai.Text.{Text, codes, filled, trim}

abbrev search : Text → ℕ → Args
search query category = record {
  query = query;
  category_id = whole category;
  price_preference = [];
  required_variant_attribute_code = [];
  lookup_purpose = [];
}

abbrev found : ℕ → Content
found n = record {
  error = false;
  status = [];
  total = whole n;
  items = none;
  categories =
      record { id = whole 4; parent_id = whole 2; product_count = whole 9 }
      ∷ record { id = whole 2; parent_id = nan; product_count = whole 9 }
      ∷ [];
}

-- A missed search for shoes, then the categories, of which only the fourth is a leaf.
abbrev seen : List Observation
seen =
    record { tool = search_products; args = search (codes " shoes") 0; content = some (found 0) }
    ∷ record { tool = list_categories; args = search [] 0; content = some (found 2) }
    ∷ []

normalize-Known_example :
    let s = observe_all seen new_continuity in
    let query = (normalize s search_products (search [] 2)).query in
    ((query ≡ []) ⊎ ((query ≡ trim []) ⊎ Known query (searched seen [])))
    × (filled (trim []) ≡ true → query ≡ trim [])
    × (filled (trim []) ≡ true → HasOwn s (search [] 2) query)
    × (positive (whole_of (whole 2)) ≡ false → (query ≡ trim []) ⊎ (query ≡ []))
normalize-Known_example = normalize-Known seen (search [] 2)

repeated :
    (normalize (observe_all seen new_continuity) search_products (search [] 2)).query
    ≡ codes "shoes"
unfolding normalize observe_all observe
repeated = refl

browsed : (normalize (observe_all seen new_continuity) search_products (search [] 4)).query ≡ []
unfolding normalize observe_all observe
browsed = refl
