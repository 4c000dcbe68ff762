-- ===== src/Runtime/Scoped/Live.antt =====
-- The live leases of the scoped semaphores of gateway-runtime.js: what a refused acquisition and an
-- acquisition that is undone leave of them.
use magento2_chat_ai.JsMap
use magento2_chat_ai.Prelude.{
  ℕ, ◌+◌, ◌≡◌, inl, inr, refl, sym, ap, Option, none, some, [], ◌∷◌, arith, ◌∙◌, Bool-cases,
  Option-cases, leb, ite, if_pos, if_neg, ℕ_discrete, length, keep, or_else,
}
use magento2_chat_ai.Runtime.Scoped.{
  Leases, Scopes, purge, write_purged, acquire_scoped, put_leases, release_scoped,
}
use magento2_chat_ai.Runtime.Scoped.Bound.{leases, leases-set, leases-delete}

purge_idem : (now : ℕ) (ls : Leases) → purge now (purge now ls) ≡ purge now ls
unfolding purge keep
purge_idem now [] = refl
purge_idem now ((t, e) ∷ ls) = ground (arith, purge_idem now ls)

purge-delete :
    (now token : ℕ) (ls : Leases)
    → purge now (JsMap.delete ℕ_discrete token ls) ≡ JsMap.delete ℕ_discrete token (purge now ls)
unfolding purge keep JsMap.delete
purge-delete now token [] = refl
purge-delete now token ((t, e) ∷ ls) = ground (arith, purge-delete now token ls)

pub some-ne-none {ℓ} : {A : Type ℓ} {a : A} → some a ≡ none → ⊥
some-ne-none e = cc

module _ {K : Type 0} (dec : Discrete K) where
  -- The leases of a key that have not run out.
  unfoldable pub live : ℕ → K → Scopes K → Leases
  live now key m = purge now (leases dec key m)

  leases-put_leases :
      (k key : K) (ls : Leases) (m : Scopes K)
      → leases dec key (put_leases dec k ls m) ≡ ite (dec k key) ls (leases dec key m)
  unfolding put_leases
  leases-put_leases k key [] m = leases-delete dec k key m
  leases-put_leases k key (l ∷ ls) m = leases-set dec k key (l ∷ ls) m

  leases-release :
      (token : ℕ) (k key : K) (m : Scopes K)
      → leases dec key (release_scoped dec token k m)
        ≡ ite (dec k key) (JsMap.delete ℕ_discrete token (leases dec k m)) (leases dec key m)
  unfolding release_scoped leases JsMap.delete
  leases-release token k key m = elim (Option-cases (JsMap.get dec k m)) [
    | inl missing ↦ rw missing (empty_here missing)
    | inr (ls, found) ↦ rw found (leases-put_leases k key (JsMap.delete ℕ_discrete token ls) m)
  ]
    where
      empty_here :
          JsMap.get dec k m ≡ none
          → or_else (JsMap.get dec key m) [] ≡ ite (dec k key) [] (or_else (JsMap.get dec key m) [])
      empty_here missing = elim (dec k key) [
        | yes same ↦ rw (if_pos _ same) (rw (← same) (rw missing))
        | no other ↦ rw (if_neg _ other)
      ]

  -- A refused acquisition changes no live lease.
  pub live-refused :
      (now c lease token : ℕ) (k key : K) (m : Scopes K)
      → (acquire_scoped dec now c lease token k m).0 ≡ none
      → live now key (acquire_scoped dec now c lease token k m).1 ≡ live now key m
  unfolding live acquire_scoped leases
  live-refused now c lease token k key m h =
      elim (Bool-cases (leb c (length (purge now (leases dec k m))))) [
        | inl full ↦ rw full (purged (JsMap.get dec k m) refl)
        | inr room ↦ absurd (some-ne-none (rw room at h))
      ]
    where
      purged :
          (old : Option Leases)
          → JsMap.get dec k m ≡ old
          → live now key (write_purged dec k (purge now (or_else (JsMap.get dec k m) [])) old m)
            ≡ live now key m
      purged none e = refl
      purged (some ls) e = purged_here
        where
          purged_here : live now key (JsMap.set dec k (live now k m) m) ≡ live now key m
          purged_here = ap (purge now) (leases-set dec k key (live now k m) m) ∙ elim (dec k key) [
            | yes same ↦ rw (if_pos _ same) (rw same (purge_idem now (leases dec key m)))
            | no other ↦ rw (if_neg _ other)
          ]

  leases-acquired :
      (now c lease token t : ℕ) (k key : K) (m : Scopes K)
      → (acquire_scoped dec now c lease token k m).0 ≡ some t
      → leases dec key (acquire_scoped dec now c lease token k m).1
        ≡ ite
            (dec k key)
            (JsMap.set ℕ_discrete token (now + lease) (live now k m))
            (leases dec key m)
  unfolding live acquire_scoped leases
  leases-acquired now c lease token t k key m h =
      elim (Bool-cases (leb c (length (purge now (leases dec k m))))) [
        | inl full ↦ absurd (some-ne-none (sym (rw full at h)))
        | inr room ↦
            rw room
              (leases-set dec k key (JsMap.set ℕ_discrete token (now + lease) (live now k m)) m)
      ]

  -- Releasing a lease that was just acquired under a token of its own restores every live lease.
  pub live-undone :
      (now c lease token t : ℕ) (k key : K) (m : Scopes K)
      → (acquire_scoped dec now c lease token k m).0 ≡ some t
      → JsMap.get ℕ_discrete token (live now k m) ≡ none
      → live now key (release_scoped dec token k (acquire_scoped dec now c lease token k m).1)
        ≡ live now key m
  unfolding live
  live-undone now c lease token t k key m h own =
      let m' = (acquire_scoped dec now c lease token k m).1 in
      ap (purge now) (leases-release token k key m') ∙ elim (dec k key) [
        | yes same ↦
            rw (if_pos _ same)
              (rw (← same) (ap (purge now) restored ∙ purge_idem now (leases dec k m)))
        | no other ↦ rw (if_neg _ other) (
            ap (purge now) (
              leases-acquired now c lease token t k key m h
              ∙ if_neg (dec k key) other (JsMap.set ℕ_discrete token (now + lease) (live now k m))
                  _))
      ]
    where
      restored :
          JsMap.delete ℕ_discrete token (leases dec k (acquire_scoped dec now c lease token k m).1)
          ≡ purge now (leases dec k m)
      restored =
          ap (JsMap.delete ℕ_discrete token) (
            leases-acquired now c lease token t k k m h
            ∙ if_pos (dec k k) refl (JsMap.set ℕ_discrete token (now + lease) (live now k m)) _)
          ∙ JsMap.delete-set ℕ_discrete token (now + lease) _ own

  pub live-release :
      (now token : ℕ) (k key : K) (m m' : Scopes K)
      → ((j : K) → live now j m' ≡ live now j m)
      → live now key (release_scoped dec token k m') ≡ live now key (release_scoped dec token k m)
  unfolding live
  live-release now token k key m m' same =
      ap (purge now) (leases-release token k key m')
      ∙ elim (dec k key) [
        | yes here ↦
            rw (if_pos _ here, if_pos _ here)
              (purge-delete now token (leases dec k m')
                ∙ ap (JsMap.delete ℕ_discrete token) (same k)
                ∙ sym (purge-delete now token (leases dec k m)))
        | no other ↦ rw (if_neg _ other, if_neg _ other) (same key)
      ]
      ∙ sym (ap (purge now) (leases-release token k key m))

  -- What is granted is the token that was asked for.
  pub acquired-token :
      (now c lease token t : ℕ) (k : K) (m : Scopes K)
      → (acquire_scoped dec now c lease token k m).0 ≡ some t
      → t ≡ token
  unfolding acquire_scoped
  acquired-token now c lease token t k m h =
      elim (Bool-cases (leb c (length (purge now (or_else (JsMap.get dec k m) []))))) [
        | inl full ↦ absurd (some-ne-none (sym (rw full at h)))
        | inr room ↦ let e : some token ≡ some t = rw room at h in cc
      ]
