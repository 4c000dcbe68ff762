-- ===== src/Orchestration/Envelope/Listed.antt =====
-- provider-response-envelope.js: the citations that an envelope holds.
use magento2_chat_ai.Orchestration.Envelope.{
  Usage, UsageSource, merge_provider_usage, raise, Citation, is_https, has_url,
  add_provider_citations, max_citations,
}
use magento2_chat_ai.Prelude.{
  ℕ, ◌+◌, ◌≤◌, ◌≡◌, refl, sym, Bool, true, false, not, ◌&&◌, ◌||◌, List, [], ◌∷◌, ◌++◌, any, length,
  max, leb, Bool-cases, inl, inr, arith, Option, none, some, ◌⊎◌,
}
use magento2_chat_ai.Text.{Text, text_eq, text_eq_iff}

length-add : (xs : List Citation) (c : Citation) → length (xs ++ c ∷ []) ≡ length xs + 1
length-add [] c = refl
length-add (x ∷ xs) c = omega (length-add xs c, arith)

raise_le : (n : ℕ) (o : Option ℕ) → n ≤ raise n o
unfolding raise
raise_le n none = omega arith
raise_le n (some m) = omega arith

-- What is listed: no address twice, and each of them an `https` one.
abbrev pub is_listed : List Citation → Bool
is_listed [] = true
is_listed (c ∷ cs) = (is_https c.url && not (has_url c.url cs)) && is_listed cs

text_eq-sym : (s t : Text) → text_eq s t ≡ text_eq t s
text_eq-sym s t = elim (Bool-cases (text_eq s t)) [
  | inl e ↦ rw e (sym ((text_eq_iff t s).1 (sym ((text_eq_iff s t).0 e))))
  | inr e ↦ elim (Bool-cases (text_eq t s)) [
    | inl f ↦ rw f ((text_eq_iff s t).1 (sym ((text_eq_iff t s).0 f)))
    | inr f ↦ rw (e, f) refl
  ]
]

has_url-add :
    (url : Text) (xs : List Citation) (c : Citation)
    → has_url url (xs ++ c ∷ []) ≡ (has_url url xs || text_eq c.url url)
unfolding has_url any
has_url-add url [] c = ground arith
has_url-add url (x ∷ xs) c = ground (arith, has_url-add url xs c)

listed_add :
    (xs : List Citation) (c : Citation)
    → is_listed xs ≡ true
    → is_https c.url ≡ true
    → has_url c.url xs ≡ false
    → is_listed (xs ++ c ∷ []) ≡ true
unfolding has_url any
listed_add [] c h k n = ground arith
listed_add (x ∷ xs) c h k n =
    ground (arith, has_url-add x.url xs c, text_eq-sym x.url c.url, listed_add xs c)

-- A candidate that is taken.
taken :
    (xs : List Citation) (c : Citation)
    → (not (is_https c.url) || has_url c.url xs) ≡ false
    → (is_https c.url ≡ true) × (has_url c.url xs ≡ false)
taken xs c h = (ground arith, ground arith)

has_url-keeps :
    (url : Text) (xs : List Citation) (c : Citation)
    → has_url url xs ≡ true
    → has_url url (xs ++ c ∷ []) ≡ true
has_url-keeps url xs c h = ground (arith, has_url-add url xs c, h)

has_url-last :
    (url : Text) (xs : List Citation) (c : Citation)
    → text_eq c.url url ≡ true
    → has_url url (xs ++ c ∷ []) ≡ true
has_url-last url xs c h = ground (arith, has_url-add url xs c, h)

-- No held address is lost.
pub add-keeps :
    (citations candidates : List Citation) (url : Text)
    → has_url url citations ≡ true
    → has_url url (add_provider_citations citations candidates) ≡ true
unfolding add_provider_citations
add-keeps citations [] url h = h
add-keeps citations (c ∷ cs) url h =
    elim (Bool-cases (not (is_https c.url) || has_url c.url citations)) [
      | inl passed ↦ rw passed (add-keeps citations cs url h)
      | inr new ↦
          let kept = has_url-keeps url citations c h in
          elim (Bool-cases (leb max_citations (length (citations ++ c ∷ [])))) [
            | inl full ↦ rw (new, full) kept
            | inr room ↦ rw (new, room) (add-keeps (citations ++ c ∷ []) cs url kept)
          ]
    ]

-- An `https` candidate of that address.
abbrev pub offers : Text → List Citation → Bool
offers url [] = false
offers url (c ∷ cs) = (is_https c.url && text_eq c.url url) || offers url cs

-- A candidate that is passed over has no `https` address, or one that is held.
passed_held :
    (citations : List Citation) (c : Citation) (url : Text)
    → (not (is_https c.url) || has_url c.url citations) ≡ true
    → (is_https c.url && text_eq c.url url) ≡ true
    → has_url url citations ≡ true
passed_held citations c url passed e =
    let same : c.url ≡ url = (text_eq_iff c.url url).0 (ground (arith, e)) in
    let held : has_url c.url citations ≡ true = ground (arith, passed, e) in rw same at held

-- Every `https` address that is offered is held at the end, unless the envelope is full.
pub add-takes :
    (citations candidates : List Citation) (url : Text)
    → offers url candidates ≡ true
    → (has_url url (add_provider_citations citations candidates) ≡ true)
      ⊎ (max_citations ≤ length (add_provider_citations citations candidates))
unfolding add_provider_citations
add-takes citations [] url h = cc
add-takes citations (c ∷ cs) url h = elim (Bool-cases (is_https c.url && text_eq c.url url)) [
  | inl here ↦ elim (Bool-cases (not (is_https c.url) || has_url c.url citations)) [
    | inl passed ↦
        inl (rw passed (add-keeps citations cs url (passed_held citations c url passed here)))
    | inr new ↦
        let kept = has_url-last url citations c (ground (arith, here)) in
        elim (Bool-cases (leb max_citations (length (citations ++ c ∷ [])))) [
          | inl full ↦ inl (rw (new, full) kept)
          | inr room ↦ inl (rw (new, room) (add-keeps (citations ++ c ∷ []) cs url kept))
        ]
  ]
  | inr elsewhere ↦
      let later : offers url cs ≡ true = ground (arith, h, elsewhere) in
      elim (Bool-cases (not (is_https c.url) || has_url c.url citations)) [
        | inl passed ↦ rw passed (add-takes citations cs url later)
        | inr new ↦ elim (Bool-cases (leb max_citations (length (citations ++ c ∷ [])))) [
          | inl full ↦ rw (new, full) (inr (ground (arith, full)))
          | inr room ↦ rw (new, room) (add-takes (citations ++ c ∷ []) cs url later)
        ]
      ]
]

add-bounded :
    (citations candidates : List Citation)
    → is_listed citations ≡ true
    → (is_listed (add_provider_citations citations candidates) ≡ true)
      × (length (add_provider_citations citations candidates)
          ≤ max max_citations (length citations + 1))
unfolding add_provider_citations
add-bounded citations [] h = (h, omega arith)
add-bounded citations (c ∷ cs) h =
    elim (Bool-cases (not (is_https c.url) || has_url c.url citations)) [
      | inl passed ↦ rw passed (add-bounded citations cs h)
      | inr new ↦
          let (secure, unseen) = taken citations c new in
          let more = listed_add citations c h secure unseen in
          let one = length-add citations c in
          elim (Bool-cases (leb max_citations (length (citations ++ c ∷ [])))) [
            | inl full ↦ rw (new, full) (more, omega (one, arith))
            | inr room ↦
                let (listed, bounded) = add-bounded (citations ++ c ∷ []) cs more in
                let few : length (citations ++ c ∷ []) + 1 ≤ max_citations = ground arith in
                rw (new, room) (listed, omega (one, bounded, few, arith))
          ]
    ]

-- Of any candidates an envelope takes those with an `https` address that it does not hold: every
-- such address is held afterwards, unless the envelope holds 20 citations or more by then, what it
-- held it still holds, and no address is ever listed twice. In one call it grows to at most 20, or
-- by one where it held 20 or more before.
pub add-is_listed :
    (citations candidates : List Citation)
    → is_listed citations ≡ true
    → (is_listed (add_provider_citations citations candidates) ≡ true)
      × (length (add_provider_citations citations candidates)
          ≤ max max_citations (length citations + 1))
      × ((url : Text)
          → has_url url citations ≡ true
          → has_url url (add_provider_citations citations candidates) ≡ true)
      × ((url : Text)
          → offers url candidates ≡ true
          → (has_url url (add_provider_citations citations candidates) ≡ true)
            ⊎ (max_citations ≤ length (add_provider_citations citations candidates)))
add-is_listed citations candidates h =
    let (listed, bounded) = add-bounded citations candidates h in
    (listed, bounded, add-keeps citations candidates, add-takes citations candidates)

-- What is merged lowers no number, and a total is given wherever there is an input or an output.
merge_grows :
    (usage : Usage) (source : UsageSource)
    → let merged = merge_provider_usage usage source in
      (usage.input_tokens ≤ merged.input_tokens)
      × (usage.output_tokens ≤ merged.output_tokens)
      × (usage.total_tokens ≤ merged.total_tokens)
      × (merged.total_tokens ≡ 0 → merged.input_tokens + merged.output_tokens ≡ 0)
unfolding merge_provider_usage
merge_grows usage source = (
  raise_le usage.input_tokens source.input,
  raise_le usage.output_tokens source.output,
  ground (arith, raise_le usage.total_tokens source.total),
  λ h. ground arith,
)
