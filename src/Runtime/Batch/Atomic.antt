-- ===== src/Runtime/Batch/Atomic.antt =====
-- The batch of rate limits of gateway-runtime.js charges all of its counters or none.
use magento2_chat_ai.JsMap
use magento2_chat_ai.Prelude.{
  ℕ, ◌+◌, ◌≤◌, ◌≡◌, inl, inr, refl, ap, true, false, Option, none, some, List, [], ◌∷◌, map, arith,
  ◌∙◌, Bool-cases, leb, ltb, if◌then◌else◌, find,
}
use magento2_chat_ai.Runtime.RateLimit.{Record, Rates, fresh, write_back}
use magento2_chat_ai.Runtime.Batch.{
  Entry, Merged, normalize, seen, refresh, exceeds, charge, refuse_or_charge, consume_policies,
  consume_rate_limit_batch,
}

-- What a counter stands at: nothing if it is missing or has run out.
abbrev pub counted : ℕ → Option Record → ℕ
counted now none = 0
counted now (some r) = if leb r.expires_at now then 0 else r.count

-- The number that is stored, whether or not its time is over.
abbrev pub stored : Option Record → ℕ
stored none = 0
stored (some r) = r.count

abbrev pub first_amount {κ} : {I : Type 0} {K : Type κ} → List (K × Merged I) → ℕ
first_amount [] = 0
first_amount ((key, p) ∷ ps) = p.amount

fresh-counted : (now w : ℕ) (o : Option Record) → (fresh now w o).count ≡ counted now o
unfolding fresh
fresh-counted now w none = refl
fresh-counted now w (some r) = ground arith

some-ne-none {ℓ} : {A : Type ℓ} {a : A} → some a ≡ none → ⊥
some-ne-none e = cc

module _ {K : Type 0} (dec : Discrete K) where
  write_back-counted :
      (now w : ℕ) (key j : K) (o : Option Record) (m : Rates K)
      → JsMap.get dec key m ≡ o
      → counted now (JsMap.get dec j (write_back dec key (fresh now w o) o m))
        ≡ counted now (JsMap.get dec j m)
  unfolding write_back
  write_back-counted now w key j none m e = refl
  write_back-counted now w key j (some r) m e = elim (dec key j) [
    | yes same ↦
        rw (← same, JsMap.get-set_self dec key (fresh now w (some r)) m, e)
          (unfold fresh in ground arith)
    | no other ↦ rw (JsMap.get-set_ne dec key j (fresh now w (some r)) m other)
  ]

module _ {I K : Type 0} (dec : Discrete K) where
  refresh-counted :
      (now : ℕ) (ps : List (K × Merged I)) (j : K) (m : Rates K)
      → counted now (JsMap.get dec j (refresh dec now ps m)) ≡ counted now (JsMap.get dec j m)
  unfolding refresh
  refresh-counted now [] j m = refl
  refresh-counted now ((key, p) ∷ ps) j m =
      refresh-counted now ps j _ ∙ write_back-counted dec now p.window_ms key j _ m refl

  charge-absent :
      (now amount : ℕ) (j : K) (ps : List (K × Merged I)) (m m' : Rates K)
      → JsMap.get dec j ps ≡ none
      → JsMap.get dec j (charge dec amount (map (seen dec now m) ps) m') ≡ JsMap.get dec j m'
  unfolding charge seen
  charge-absent now amount j [] m m' h = refl
  charge-absent now amount j ((key, p) ∷ ps) m m' h =
      let (other, rest) = JsMap.absent-cons dec j key p ps h in
      charge-absent now amount j ps m _ rest ∙ JsMap.get-set_ne dec key j _ m' other

  -- Every policy's counter has gone up by the amount, and stays within the policy's limit.
  abbrev pub Charged : ℕ → ℕ → Rates K → Rates K → List (K × Merged I) → Type 0
  Charged now amount m m' [] = Unit
  Charged now amount m m' ((key, p) ∷ ps) =
      (stored (JsMap.get dec key m') ≡ counted now (JsMap.get dec key m) + amount)
      × (counted now (JsMap.get dec key m) + amount ≤ p.limit)
      × Charged now amount m m' ps

  charge-Charged :
      (now amount : ℕ) (ps : List (K × Merged I)) (m m' : Rates K)
      → JsMap.Distinct dec ps
      → find (exceeds dec amount) (map (seen dec now m) ps) ≡ none
      → Charged now amount m (charge dec amount (map (seen dec now m) ps) m') ps
  unfolding charge seen find
  charge-Charged now amount [] m m' d e = tt
  charge-Charged now amount ((key, p) ∷ ps) m m' d e =
      let r = fresh now p.window_ms (JsMap.get dec key m) in
      elim (Bool-cases (ltb p.limit (r.count + amount))) [
        | inl over ↦ absurd (some-ne-none (rw over at e))
        | inr fits ↦ (
          rw (charge-absent now amount key ps m _ d.0, JsMap.get-set_self dec key _ m')
              (omega (arith, fresh-counted now p.window_ms (JsMap.get dec key m))),
          ground (arith, fresh-counted now p.window_ms (JsMap.get dec key m)),
          charge-Charged now amount ps m _ d.1 (rw fits at e),
        )
      ]

  -- The two ends of a call, by the first counter that would be exceeded.
  outcome-Charged :
      (now amount : ℕ) (ps : List (K × Merged I)) (m m' : Rates K)
      (o : Option (K × Merged I × Record))
      → find (exceeds dec amount) (map (seen dec now m) ps) ≡ o
      → JsMap.Distinct dec ps
      → (refuse_or_charge dec now amount (map (seen dec now m) ps) o m').0.allowed ≡ true
      → Charged now amount m (refuse_or_charge dec now amount (map (seen dec now m) ps) o m').1 ps
  unfolding refuse_or_charge
  outcome-Charged now amount ps m m' none e d h = charge-Charged now amount ps m m' d e
  outcome-Charged now amount ps m m' (some (key, p, r)) e d h = absurd (cc)

  outcome_refused :
      (now amount : ℕ) (rs : List (K × Merged I × Record)) (m' : Rates K)
      (o : Option (K × Merged I × Record))
      → (refuse_or_charge dec now amount rs o m').0.allowed ≡ false
      → (refuse_or_charge dec now amount rs o m').1 ≡ m'
  unfolding refuse_or_charge
  outcome_refused now amount rs m' none h = absurd (cc)
  outcome_refused now amount rs m' (some (key, p, r)) h = refl

  policies-Charged :
      (now : ℕ) (ps : List (K × Merged I)) (m : Rates K)
      → JsMap.Distinct dec ps
      → (consume_policies dec now ps m).0.allowed ≡ true
      → Charged now (first_amount ps) m (consume_policies dec now ps m).1 ps
  unfolding consume_policies
  policies-Charged now [] m d h = tt
  policies-Charged now ((key, p) ∷ ps) m d h =
      outcome-Charged now p.amount ((key, p) ∷ ps) m _ _ refl d h

  policies-refused :
      (now : ℕ) (ps : List (K × Merged I)) (m : Rates K) (j : K)
      → (consume_policies dec now ps m).0.allowed ≡ false
      → counted now (JsMap.get dec j (consume_policies dec now ps m).1)
        ≡ counted now (JsMap.get dec j m)
  unfolding consume_policies
  policies-refused now [] m j h = refl
  policies-refused now ((key, p) ∷ ps) m j h =
      ap (λ s. counted now (JsMap.get dec j s))
        (outcome_refused now p.amount (map (seen dec now m) ((key, p) ∷ ps)) _ _ h)
      ∙ refresh-counted now ((key, p) ∷ ps) j m

module _ {I K : Type 0} (dec : Discrete K) (hash : I → K) where
  normalize-Distinct :
      (es : List (Entry I)) (ps : List (K × Merged I))
      → JsMap.Distinct dec ps
      → JsMap.Distinct dec (normalize dec hash es ps)
  unfolding normalize
  normalize-Distinct [] ps d = d
  normalize-Distinct (e ∷ es) ps d =
      normalize-Distinct es _ (JsMap.set-Distinct dec (hash e.identity) _ ps d)

  -- An admitted batch charges its amount to the counter of every one of its policies, and none
  -- goes past the limit of its policy.
  pub batch-Charged :
      (now : ℕ) (es : List (Entry I)) (m : Rates K)
      → (consume_rate_limit_batch dec hash now es m).0.allowed ≡ true
      → let ps = normalize dec hash es [] in
        Charged dec now (first_amount ps) m (consume_rate_limit_batch dec hash now es m).1 ps
  unfolding consume_rate_limit_batch
  batch-Charged now es m h =
      policies-Charged dec now (normalize dec hash es []) m (normalize-Distinct es [] tt) h

  -- A refused batch charges no counter at all: each stands at what it stood at before.
  pub batch_refused :
      (now : ℕ) (es : List (Entry I)) (m : Rates K) (j : K)
      → (consume_rate_limit_batch dec hash now es m).0.allowed ≡ false
      → counted now (JsMap.get dec j (consume_rate_limit_batch dec hash now es m).1)
        ≡ counted now (JsMap.get dec j m)
  unfolding consume_rate_limit_batch
  batch_refused now es m j h = policies-refused dec now (normalize dec hash es []) m j h
