-- ===== src/Catalog/QueryContinuity/Provenance.antt =====
-- catalog-query-continuity.js: where the query of a search comes from.
use magento2_chat_ai.Catalog.QueryContinuity.{
  ToolName, search_products, list_categories, other_tool, Args, Content, Continuity, new_continuity,
  search_query, normalize, observe, observe_categories, record_count, end_discovery,
  successful_result_count, positive, whole_of, is_lowest_price_preference, has,
}
use magento2_chat_ai.Prelude.{
  ℕ, ◌≡◌, ◌⊎◌, inl, inr, refl, true, false, Option, none, some, List, [], ◌∷◌, arith, Bool-cases,
  ltb, sym, subst, if◌then◌else◌,
}
use magento2_chat_ai.Text.{filled, Text, trim, text_eq, text_eq_iff, codes}

-- One result that the turn has seen.
pub record Observation : Type 0 where
  pub tool : ToolName
  pub args : Args
  pub content : Option Content

unfoldable pub observe_all : List Observation → Continuity → Continuity
observe_all [] s = s
observe_all (o ∷ os) s = observe_all os (observe s o.tool o.args o.content)

-- The queries, trimmed, of the searches that were seen.
abbrev pub searched_by : ToolName → Args → List Text → List Text
searched_by search_products args qs = trim args.query ∷ qs
searched_by list_categories args qs = qs
searched_by other_tool args qs = qs

abbrev pub searched : List Observation → List Text → List Text
searched [] qs = qs
searched (o ∷ os) qs = searched os (searched_by o.tool o.args qs)

abbrev pub In : Text → List Text → Type 0
In q [] = ⊥
In q (x ∷ xs) = (q ≡ x) ⊎ In q xs

-- A query that is empty or was seen.
abbrev pub Known : Text → List Text → Type 0
Known q xs = (q ≡ []) ⊎ In q xs

record IsKnown (xs : List Text) (s : Continuity) : Type 0 where
  missed : Known s.last_missed_query xs
  successful : Known s.last_successful_product_query xs
  source : Known s.discovery_source_query xs

search_query-cases :
    (s : Continuity) (args : Args)
    → (search_query s args ≡ args.query)
      ⊎ ((search_query s args ≡ trim args.query)
          ⊎ ((search_query s args ≡ [])
              ⊎ ((search_query s args ≡ s.discovery_source_query)
                  ⊎ (search_query s args ≡ s.last_missed_query))))
unfolding search_query
search_query-cases s args = ground arith

Known-cons : (p q : Text) (qs : List Text) → Known p qs → Known p (q ∷ qs)
Known-cons p q qs (inl e) = inl e
Known-cons p q qs (inr m) = inr (inr m)

record_count-IsKnown :
    (s : Continuity) (q : Text) (qs : List Text) (n : Option ℕ)
    → IsKnown qs s
    → IsKnown (q ∷ qs) (record_count s q n)
unfolding record_count
record_count-IsKnown s q qs none k = record {
  missed = Known-cons s.last_missed_query q qs k.missed;
  successful = Known-cons s.last_successful_product_query q qs k.successful;
  source = Known-cons s.discovery_source_query q qs k.source;
}
record_count-IsKnown s q qs (some m) k =
    let a = Known-cons s.last_missed_query q qs k.missed in
    let b = Known-cons s.last_successful_product_query q qs k.successful in
    let c = Known-cons s.discovery_source_query q qs k.source in
    let now : Known q (q ∷ qs) = inr (inl refl) in
    let none_missed : Known [] (q ∷ qs) = inl refl in
    elim (Bool-cases (ltb 0 m)) [
      | inl found ↦ rw found (record { missed = none_missed; successful = now; source = c })
      | inr missed ↦ elim (Bool-cases (filled q)) [
        | inl given ↦ rw (missed, given) (record { missed = now; successful = b; source = c })
        | inr absent ↦ rw (missed, absent) (record { missed = a; successful = b; source = c })
      ]
    ]

end_discovery-IsKnown :
    (s : Continuity) (args : Args) (qs : List Text) (n : Option ℕ)
    → IsKnown qs s
    → IsKnown qs (end_discovery args n s)
unfolding end_discovery
end_discovery-IsKnown s args qs none k = k
end_discovery-IsKnown s args qs (some n) k =
    elim (Bool-cases (positive (whole_of args.category_id))) [
      | inl inside ↦
          rw inside (record { missed = k.missed; successful = k.successful; source = inl refl })
      | inr outside ↦ rw outside k
    ]

categories-IsKnown :
    (s : Continuity) (args : Args) (qs : List Text) (c : Option Content)
    → IsKnown qs s
    → IsKnown qs (observe_categories s args c)
unfolding observe_categories
categories-IsKnown s args qs none k = k
categories-IsKnown s args qs (some c) k = elim (Bool-cases c.error) [
  | inl failed ↦ rw failed k
  | inr fine ↦ elim (Bool-cases (text_eq args.lookup_purpose (codes "product_discovery"))) [
    | inl discovery ↦
        rw (fine, discovery)
          (record { missed = k.missed; successful = k.successful; source = k.successful })
    | inr other ↦
        rw (fine, other)
          (record { missed = k.missed; successful = k.successful; source = inl refl })
  ]
]

observe-IsKnown :
    (s : Continuity) (t : ToolName) (args : Args) (c : Option Content) (qs : List Text)
    → IsKnown qs s
    → IsKnown (searched_by t args qs) (observe s t args c)
unfolding observe
observe-IsKnown s search_products args c qs k =
    let n = successful_result_count c in
    end_discovery-IsKnown (record_count s (trim args.query) n) args (trim args.query ∷ qs) n
      (record_count-IsKnown s (trim args.query) qs n k)
observe-IsKnown s list_categories args c qs k = categories-IsKnown s args qs c k
observe-IsKnown s other_tool args c qs k = k

observe_all-IsKnown :
    (os : List Observation) (s : Continuity) (qs : List Text)
    → IsKnown qs s
    → IsKnown (searched os qs) (observe_all os s)
unfolding observe_all
observe_all-IsKnown [] s qs k = k
observe_all-IsKnown (o ∷ os) s qs k =
    observe_all-IsKnown os (observe s o.tool o.args o.content) (searched_by o.tool o.args qs)
      (observe-IsKnown s o.tool o.args o.content qs k)

search_query-attribute :
    (s : Continuity) (args : Args)
    → filled (trim args.required_variant_attribute_code) ≡ true
    → search_query s args ≡ trim args.query
unfolding search_query
search_query-attribute s args h = ground (arith, h)

-- A search has words of its own, which it browses away where they are those that were missed last
-- and its category is a verified leaf.
abbrev pub HasOwn : Continuity → Args → Text → Type 0
HasOwn s args query =
    (query ≡ trim args.query)
    ⊎ ((query ≡ [])
        × (positive (whole_of args.category_id) ≡ true)
        × (has s.verified_leaf_category_ids (whole_of args.category_id) ≡ true)
        × (trim args.query ≡ s.last_missed_query))

search_query-filled :
    (s : Continuity) (args : Args)
    → filled (trim args.query) ≡ true
    → HasOwn s args (search_query s args)
unfolding search_query
search_query-filled s args h = ground (arith, h, text_eq_iff (trim args.query) s.last_missed_query)

search_query-anywhere :
    (s : Continuity) (args : Args)
    → positive (whole_of args.category_id) ≡ false
    → (search_query s args ≡ trim args.query) ⊎ (search_query s args ≡ args.query)
unfolding search_query
search_query-anywhere s args h = ground (arith, h)

normalize-seen :
    (os : List Observation) (args : Args)
    → let query = (normalize (observe_all os new_continuity) search_products args).query in
      (query ≡ args.query) ⊎ ((query ≡ trim args.query) ⊎ Known query (searched os []))
unfolding normalize
normalize-seen os args =
    let s = observe_all os new_continuity in
    let k =
      observe_all-IsKnown os new_continuity []
        (record { missed = inl refl; successful = inl refl; source = inl refl }) in
    elim (search_query-cases s args) [
      | inl own ↦ inl own
      | inr (inl trimmed) ↦ inr (inl trimmed)
      | inr (inr (inl empty)) ↦ inr (inr (inl empty))
      | inr (inr (inr (inl e))) ↦
          inr (inr (subst (λ (q : Text). Known q (searched os [])) (sym e) k.source))
      | inr (inr (inr (inr e))) ↦
          inr (inr (subst (λ (q : Text). Known q (searched os [])) (sym e) k.missed))
    ]

-- Whatever results a turn has seen, the query that a search is given is its own, as it came or
-- trimmed, or empty, or the trimmed query of a search that was seen: none is made up. It is its own,
-- trimmed, where a variant attribute is required. Words of its own it keeps, unless they are the
-- query that was missed last and its category is a verified leaf, which is browsed without words.
-- And outside a category no search is given a query but its own.
pub normalize-Known :
    (os : List Observation) (args : Args)
    → let s = observe_all os new_continuity in
      let query = (normalize s search_products args).query in
      ((query ≡ args.query) ⊎ ((query ≡ trim args.query) ⊎ Known query (searched os [])))
      × (filled (trim args.required_variant_attribute_code) ≡ true → query ≡ trim args.query)
      × (filled (trim args.query) ≡ true → HasOwn s args query)
      × (positive (whole_of args.category_id) ≡ false
          → (query ≡ trim args.query) ⊎ (query ≡ args.query))
unfolding normalize
normalize-Known os args =
    let s = observe_all os new_continuity in
    (
      normalize-seen os args,
      search_query-attribute s args,
      search_query-filled s args,
      search_query-anywhere s args,
    )

-- A search of a category without words of its own, without an attribute and without the lowest price
-- repeats the query that was missed last, unless the category is a verified leaf, which it browses,
-- or a discovery has left its own query.
pub search_query-missed :
    (s : Continuity) (args : Args)
    → trim args.query ≡ []
    → trim args.required_variant_attribute_code ≡ []
    → is_lowest_price_preference args ≡ false
    → positive (whole_of args.category_id) ≡ true
    → filled s.last_missed_query ≡ true
    → s.discovery_source_query ≡ []
    → search_query s args ≡ (
        if has s.verified_leaf_category_ids (whole_of args.category_id)
        then []
        else s.last_missed_query)
unfolding search_query
search_query-missed s args a b c d e f =
    elim (Bool-cases (has s.verified_leaf_category_ids (whole_of args.category_id))) [
      | inl leaf ↦ ground arith
      | inr other ↦ ground arith
    ]
