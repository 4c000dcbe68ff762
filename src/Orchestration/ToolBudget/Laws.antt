-- ===== src/Orchestration/ToolBudget/Laws.antt =====
-- What the tool budget of tool-execution-budget.js admits over a series of calls.
use magento2_chat_ai.Prelude.{
  ℕ, ◌+◌, ◌≤◌, ◌≡◌, ◌≢◌, refl, ◌⊎◌, inl, inr, Bool, true, false, ◌&&◌, List, [], ◌∷◌, leb, arith,
  if◌then◌else◌, length, Bool-cases,
}
use magento2_chat_ai.Orchestration.ToolBudget.{
  Config, Budget, Reason, Answer, allowed, refused, tool_execution_budget_exhausted,
  category_call_budget_exhausted, duplicate_tool_call, has, reserve,
}

abbrev add_admitted : {F : Type 0} → Answer → F → List F → List F
add_admitted allowed f fs = f ∷ fs
add_admitted (refused r) f fs = fs

abbrev add_category : Answer → Bool → ℕ → ℕ
add_category allowed k n = if k then n + 1 else n
add_category (refused r) k n = n

module _ {F : Type 0} (dec : Discrete F) where
  -- The fingerprints of the calls of a series that are admitted, in order.
  pub admitted : Config → List (Bool × F) → Budget F → List F
  admitted c [] b = []
  admitted c ((k, f) ∷ calls) b =
      let (a, b') = reserve dec c k f b in add_admitted a f (admitted c calls b')

  pub run : Config → List (Bool × F) → Budget F → Budget F
  run c [] b = b
  run c ((k, f) ∷ calls) b = run c calls (reserve dec c k f b).1

  -- How many of them are calls of the categories.
  pub admitted_categories : Config → List (Bool × F) → Budget F → ℕ
  admitted_categories c [] b = 0
  admitted_categories c ((k, f) ∷ calls) b =
      let (a, b') = reserve dec c k f b in
      let rest = admitted_categories c calls b' in add_category a k rest

  pub record IsWithin (c : Config) (b : Budget F) : Type 0 where
    pub executions_le : b.executions ≤ c.max_executions
    pub category_le : b.category_calls ≤ c.max_category_calls
    pub category_le_executions : b.category_calls ≤ b.executions

module _ {F : Type 0} (dec : Discrete F) where
  reserve-IsWithin :
      (c : Config) (k : Bool) (f : F) (b : Budget F)
      → IsWithin dec c b
      → IsWithin dec c (reserve dec c k f b).1
  unfolding reserve
  reserve-IsWithin c k f b v = ground arith

  run-IsWithin :
      (c : Config) (calls : List (Bool × F)) (b : Budget F)
      → IsWithin dec c b
      → IsWithin dec c (run dec c calls b)
  unfolding run
  run-IsWithin c [] b v = v
  run-IsWithin c ((k, f) ∷ calls) b v = run-IsWithin c calls _ (reserve-IsWithin c k f b v)

  -- No fingerprint stands twice.
  abbrev pub Unique : List F → Type 0
  Unique [] = Unit
  Unique (f ∷ fs) = (has dec f fs ≡ false) × Unique fs

  has-reserve :
      (c : Config) (k : Bool) (f g : F) (b : Budget F)
      → has dec g b.seen ≡ true
      → has dec g (reserve dec c k f b).1.seen ≡ true
  unfolding reserve has
  has-reserve c k f g b h = ground arith

  has-skip : (f g : F) (fs : List F) → g ≢ f → has dec g fs ≡ false → has dec g (f ∷ fs) ≡ false
  unfolding has
  has-skip f g fs other h = ground arith

  -- The two ways in which a call ends.
  abbrev Ends : Config → Bool → F → Budget F → Answer × Budget F → Type 0
  Ends c k f b r =
      ((b' : Budget F) × (r ≡ (allowed, b'))
        × ((c.block_duplicates && has dec f b.seen) ≡ false)
        × (has dec f b'.seen ≡ true)
        × (b'.executions ≡ b.executions + 1)
        × (b'.category_calls ≡ (if k then b.category_calls + 1 else b.category_calls)))
      ⊎ ((why : Reason) × (r ≡ (refused why, b)))

  reserve-Ends : (c : Config) (k : Bool) (f : F) (b : Budget F) → Ends c k f b (reserve dec c k f b)
  unfolding reserve has
  reserve-Ends c k f b = elim (Bool-cases (leb c.max_executions b.executions)) [
    | inl spent ↦ rw spent (inr (tool_execution_budget_exhausted, refl))
    | inr below ↦ elim (Bool-cases (k && leb c.max_category_calls b.category_calls)) [
      | inl capped ↦ rw (below, capped) (inr (category_call_budget_exhausted, refl))
      | inr free ↦ elim (Bool-cases (c.block_duplicates && has dec f b.seen)) [
        | inl again ↦ rw (below, free, again) (inr (duplicate_tool_call, refl))
        | inr new ↦ rw (below, free, new) (inl (_, refl, refl, now_seen, refl, refl))
      ]
    ]
  ]
    where
      now_seen : has dec f (if has dec f b.seen then b.seen else f ∷ b.seen) ≡ true
      now_seen = ground arith

  admitted-cons :
      (c : Config) (k : Bool) (f : F) (calls : List (Bool × F)) (b b' : Budget F) (a : Answer)
      → reserve dec c k f b ≡ (a, b')
      → admitted dec c ((k, f) ∷ calls) b ≡ add_admitted a f (admitted dec c calls b')
  unfolding admitted
  admitted-cons c k f calls b b' a e = rw e

  admitted_categories-cons :
      (c : Config) (k : Bool) (f : F) (calls : List (Bool × F)) (b b' : Budget F) (a : Answer)
      → reserve dec c k f b ≡ (a, b')
      → admitted_categories dec c ((k, f) ∷ calls) b
        ≡ add_category a k (admitted_categories dec c calls b')
  unfolding admitted_categories
  admitted_categories-cons c k f calls b b' a e = rw e

  run-cons :
      (c : Config) (k : Bool) (f : F) (calls : List (Bool × F)) (b b' : Budget F) (a : Answer)
      → reserve dec c k f b ≡ (a, b')
      → run dec c ((k, f) ∷ calls) b ≡ run dec c calls b'
  unfolding run
  run-cons c k f calls b b' a e = rw e

  admitted-seen :
      (c : Config) (calls : List (Bool × F)) (g : F) (b : Budget F)
      → c.block_duplicates ≡ true
      → has dec g b.seen ≡ true
      → has dec g (admitted dec c calls b) ≡ false
  admitted-seen c [] g b blocks h = unfold admitted has in refl
  admitted-seen c ((k, f) ∷ calls) g b blocks h =
      let ih = admitted-seen c calls g (reserve dec c k f b).1 blocks (has-reserve c k f g b h) in
      elim (reserve-Ends c k f b) [
        | inl (b', e, new, seen, count, _) ↦
            rw (admitted-cons c k f calls b b' allowed e)
              (has-skip f g (admitted dec c calls b') (not_same new) (rw e at ih))
        | inr (why, e) ↦ rw (admitted-cons c k f calls b b (refused why) e) (rw e at ih)
      ]
    where
      not_same : (c.block_duplicates && has dec f b.seen) ≡ false → g ≢ f
      not_same new same = ground (arith, h, blocks, new, same)

  -- Of any series of calls, no two that are admitted have the same fingerprint while duplicates are
  -- blocked.
  pub admitted-Unique :
      (c : Config) (calls : List (Bool × F)) (b : Budget F)
      → c.block_duplicates ≡ true
      → Unique (admitted dec c calls b)
  admitted-Unique c [] b blocks = unfold admitted in tt
  admitted-Unique c ((k, f) ∷ calls) b blocks =
      let ih = admitted-Unique c calls (reserve dec c k f b).1 blocks in
      elim (reserve-Ends c k f b) [
        | inl (b', e, new, seen, count, _) ↦
            rw (admitted-cons c k f calls b b' allowed e)
              (admitted-seen c calls f b' blocks seen, rw e at ih)
        | inr (why, e) ↦ rw (admitted-cons c k f calls b b (refused why) e) (rw e at ih)
      ]

  -- A series of calls is admitted no more often than the budget allows, duplicates or not, and of
  -- the calls of the categories no more than their own limit allows; the two counters count exactly
  -- the admitted calls and the admitted calls of the categories.
  pub admitted-executions :
      (c : Config) (calls : List (Bool × F)) (b : Budget F)
      → IsWithin dec c b
      → ((run dec c calls b).executions ≡ b.executions + length (admitted dec c calls b))
        × (b.executions + length (admitted dec c calls b) ≤ c.max_executions)
        × ((run dec c calls b).category_calls
            ≡ b.category_calls + admitted_categories dec c calls b)
        × (b.category_calls + admitted_categories dec c calls b ≤ c.max_category_calls)
  admitted-executions c [] b v =
      unfold admitted run admitted_categories in
      (omega arith, omega (arith, v.executions_le), omega arith, omega (arith, v.category_le))
  admitted-executions c ((k, f) ∷ calls) b v =
      let ih = admitted-executions c calls (reserve dec c k f b).1 (reserve-IsWithin c k f b v) in
      elim (reserve-Ends c k f b) [
        | inl (b', e, new, seen, one, category) ↦
            let ih' = rw e at ih in
            rw
              (
                admitted-cons c k f calls b b' allowed e,
                admitted_categories-cons c k f calls b b' allowed e,
                run-cons c k f calls b b' allowed e,
              )
              (
                omega (arith, one, ih'.0),
                omega (arith, one, ih'.1),
                counted k _ _ _ _ category ih'.2,
                kept k _ _ _ _ category ih'.3,
              )
        | inr (why, e) ↦
            rw
              (
                admitted-cons c k f calls b b (refused why) e,
                admitted_categories-cons c k f calls b b (refused why) e,
                run-cons c k f calls b b (refused why) e,
              )
              (rw e at ih)
      ]
    where
      counted :
          (k : Bool) (m n o r : ℕ)
          → n ≡ (if k then m + 1 else m)
          → r ≡ n + o
          → r ≡ m + add_category allowed k o
      counted k m n o r h e = ground (arith, h, e)

      kept :
          (k : Bool) (m n o r : ℕ)
          → n ≡ (if k then m + 1 else m)
          → n + o ≤ r
          → m + add_category allowed k o ≤ r
      kept k m n o r h e = ground (arith, h, e)
