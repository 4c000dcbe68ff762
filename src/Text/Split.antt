-- ===== src/Text/Split.antt =====
-- Text taken apart at a separator of one unit, and put together again.
use magento2_chat_ai.Prelude.{
  ℕ, ◌≡◌, refl, sym, ap, ◌∙◌, false, inl, inr, List, [], ◌∷◌, ◌++◌, ◌==◌, ==_iff, Bool-cases,
}
use magento2_chat_ai.Text.{Text, cons_first, split_unit}

-- `pieces.join(separator)`.
unfoldable pub join_unit : ℕ → List Text → Text
join_unit d [] = []
join_unit d (p ∷ []) = p
join_unit d (p ∷ q ∷ ps) = p ++ d ∷ join_unit d (q ∷ ps)

abbrev pub Lacks : ℕ → Text → Type 0
Lacks d [] = Unit {0}
Lacks d (c ∷ s) = ((c == d) ≡ false) × Lacks d s

split-first : (d : ℕ) (s : Text) → (p : Text) × (ps : List Text) × (split_unit d s ≡ p ∷ ps)
unfolding split_unit
split-first d [] = ([], [], refl)
split-first d (c ∷ s) = elim (Bool-cases (c == d)) [
  | inl e ↦ ([], split_unit d s, rw e refl)
  | inr e ↦
      let (p, ps, h) = split-first d s in
      (c ∷ p, ps, rw e (ap (cons_first c) h ∙ unfold cons_first in refl))
]

join-cons_first :
    (d c : ℕ) (p : Text) (ps : List Text)
    → join_unit d (cons_first c (p ∷ ps)) ≡ c ∷ join_unit d (p ∷ ps)
unfolding join_unit cons_first
join-cons_first d c p [] = refl
join-cons_first d c p (q ∷ ps) = refl

pub join-split : (d : ℕ) (s : Text) → join_unit d (split_unit d s) ≡ s
unfolding split_unit join_unit
join-split d [] = refl
join-split d (c ∷ s) =
    let (p, ps, h) = split-first d s in
    let whole : join_unit d (p ∷ ps) ≡ s = ap (join_unit d) (sym h) ∙ join-split d s in
    elim (Bool-cases (c == d)) [
      | inl e ↦ rw e (
          ap (λ (r : List Text). join_unit d ([] ∷ r)) h
          ∙ ap (λ (r : Text). d ∷ r) whole
          ∙ ap (λ (k : ℕ). k ∷ s) (sym ((==_iff c d).0 e)))
      | inr e ↦ rw e (
          ap (λ (r : List Text). join_unit d (cons_first c r)) h
          ∙ join-cons_first d c p ps
          ∙ ap (λ (r : Text). c ∷ r) whole)
    ]

-- A piece without the separator is the first piece of what goes on behind a separator.
pub split-append_piece :
    (d : ℕ) (p s : Text) → Lacks d p → split_unit d (p ++ d ∷ s) ≡ p ∷ split_unit d s
unfolding split_unit
split-append_piece d [] s h = rw ((==_iff d d).1 refl) refl
split-append_piece d (c ∷ p) s (e, h) =
    rw e (ap (cons_first c) (split-append_piece d p s h) ∙ unfold cons_first in refl)

pub split-piece : (d : ℕ) (p : Text) → Lacks d p → split_unit d p ≡ p ∷ []
unfolding split_unit
split-piece d [] h = refl
split-piece d (c ∷ p) (e, h) =
    rw e (ap (cons_first c) (split-piece d p h) ∙ unfold cons_first in refl)
