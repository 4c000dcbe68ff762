-- ===== src/JsMap.antt =====
-- JavaScript's `Map`, as a list of entries in the order of insertion.
use magento2_chat_ai.Prelude.{
  ◌+◌, ◌≤◌, ◌≡◌, refl, sym, ◌∙◌, ite, if_pos, if_neg, ◌≢◌, Option, none, some, List, [], ◌∷◌, arith,
  length,
}

module _ {ℓ} {K V : Type ℓ} (dec : Discrete K) where
  unfoldable pub get : K → List (K × V) → Option V
  get k [] = none
  get k ((j, v) ∷ m) = ite (dec j k) (some v) (get k m)

  -- A known key keeps its place; a new one goes to the end.
  unfoldable pub set : K → V → List (K × V) → List (K × V)
  set k v [] = (k, v) ∷ []
  set k v ((j, w) ∷ m) = ite (dec j k) ((j, v) ∷ m) ((j, w) ∷ set k v m)

  unfoldable pub delete : K → List (K × V) → List (K × V)
  delete k [] = []
  delete k ((j, w) ∷ m) = ite (dec j k) (delete k m) ((j, w) ∷ delete k m)

  pub get-set :
      (k j : K) (v : V) (m : List (K × V)) → get j (set k v m) ≡ ite (dec k j) (some v) (get j m)
  unfolding get set
  get-set k j v [] = refl
  get-set k j v ((i, w) ∷ m) = ground (arith, get-set k j v m)

  pub get-delete : (k j : K) (m : List (K × V)) → get j (delete k m) ≡ ite (dec k j) none (get j m)
  unfolding get delete
  get-delete k j [] = ground arith
  get-delete k j ((i, w) ∷ m) = ground (arith, get-delete k j m)

  pub get-set_self : (k : K) (v : V) (m : List (K × V)) → get k (set k v m) ≡ some v
  get-set_self k v m = ground (arith, get-set k k v m)

  pub get-set_ne : (k j : K) (v : V) (m : List (K × V)) → k ≢ j → get j (set k v m) ≡ get j m
  get-set_ne k j v m h = ground (arith, get-set k j v m)

  pub get-delete_self : (k : K) (m : List (K × V)) → get k (delete k m) ≡ none
  get-delete_self k m = ground (arith, get-delete k k m)

  -- A key that is missing is neither the first key nor among the others.
  pub absent-cons :
      (k j : K) (v : V) (m : List (K × V)) → get k ((j, v) ∷ m) ≡ none → (j ≢ k) × (get k m ≡ none)
  unfolding get
  absent-cons k j v m h = elim (dec j k) [
    | yes same ↦ absurd (some_is_not (rw (if_pos _ same) at h))
    | no other ↦ (other, rw (if_neg _ other) at h)
  ]
    where
      some_is_not : some v ≡ none → ⊥
      some_is_not e = cc

  pub get-delete_ne : (k j : K) (m : List (K × V)) → k ≢ j → get j (delete k m) ≡ get j m
  get-delete_ne k j m h = ground (arith, get-delete k j m)

  pub length-set-le : (k : K) (v : V) (m : List (K × V)) → length (set k v m) ≤ length m + 1
  unfolding set
  length-set-le k v [] = omega arith
  length-set-le k v ((i, w) ∷ m) = ground (arith, length-set-le k v m)

  pub length-set_present :
      (k : K) (v w : V) (m : List (K × V)) → get k m ≡ some w → length (set k v m) ≡ length m
  unfolding get set
  length-set_present k v w [] h = ground arith
  length-set_present k v w ((i, u) ∷ m) h = ground (arith, length-set_present k v w m)

  pub length-delete-le : (k : K) (m : List (K × V)) → length (delete k m) ≤ length m
  unfolding delete
  length-delete-le k [] = omega arith
  length-delete-le k ((i, u) ∷ m) = ground (arith, length-delete-le k m)

  -- No key stands twice.
  abbrev pub Distinct : List (K × V) → Type ℓ
  Distinct [] = Unit
  Distinct ((k, v) ∷ m) = (get k m ≡ none) × Distinct m

  pub set-Distinct : (k : K) (v : V) (m : List (K × V)) → Distinct m → Distinct (set k v m)
  unfolding get set
  set-Distinct k v [] d = (refl, tt)
  set-Distinct k v ((j, w) ∷ m) d =
      let rest = set-Distinct k v m d.1 in
      elim (dec j k) [
        | yes same ↦ rw (if_pos _ same) d
        | no other ↦ rw (if_neg _ other) (get-set_ne k j v m (λ e. other (sym e)) ∙ d.0, rest)
      ]

  pub delete_absent : (k : K) (m : List (K × V)) → get k m ≡ none → delete k m ≡ m
  unfolding get delete
  delete_absent k [] h = refl
  delete_absent k ((j, w) ∷ m) h = ground (arith, delete_absent k m)

  -- Taking out what was just put in restores the map.
  pub delete-set : (k : K) (v : V) (m : List (K × V)) → get k m ≡ none → delete k (set k v m) ≡ m
  unfolding get set delete
  delete-set k v [] h = ground arith
  delete-set k v ((j, w) ∷ m) h = ground (arith, delete-set k v m)
