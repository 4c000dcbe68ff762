-- ===== src/Orchestration/ContextBudget.antt =====
-- `fitHistoryToBudget` of context-budget.js. The size of a message is a function of it, and so is
-- what `compactHistoryMessage` makes of a message within a number of bytes, none for null.
use magento2_chat_ai.JsNumber.{JsNumber, number_from_env}
use magento2_chat_ai.Prelude.{
  ℕ, ◌+◌, ◌-◌, ◌*◌, ◌≤◌, ◌≡◌, refl, Bool, true, false, ◌&&◌, Option, none, some, List, [], ◌∷◌,
  reverse, take_last, leb, ltb, if◌then◌else◌, arith, Bool-cases, inl, inr, Option-cases,
}

abbrev pub is_empty : {M : Type 0} → List M → Bool
is_empty [] = true
is_empty (m ∷ ms) = false

unfoldable pub unshift : {M : Type 0} → Option M → List M → List M
unshift none selected = selected
unshift (some m) selected = m ∷ selected

module _ {M : Type 0} (bytes : M → ℕ) (compact : M → ℕ → Option M) where
  -- The loop over the candidates from the newest to the oldest.
  unfoldable pub fit_loop : ℕ → List M → ℕ → List M → List M
  unfolding unshift
  fit_loop budget [] used selected = selected
  fit_loop budget (m ∷ older) used selected =
      let kept = fit_loop budget older (used + bytes m) (m ∷ selected) in
      if leb (used + bytes m) budget
      then kept
      else if is_empty selected && ltb 128 (budget - used)
      then unshift (compact m (budget - used)) selected
      else selected

  unfoldable pub fit_history_to_budget : JsNumber → JsNumber → List M → List M
  unfolding fit_loop number_from_env
  fit_history_to_budget max_messages max_tokens history =
      fit_loop (number_from_env max_tokens 12000 64 64000 * 4)
        (reverse (take_last (number_from_env max_messages 20 1 40) history)) 0 []

  unfoldable pub total : List M → ℕ
  total [] = 0
  total (m ∷ ms) = bytes m + total ms

  fit_loop-total :
      (budget : ℕ) (candidates : List M) (used : ℕ) (selected : List M)
      → ((m : M) (room : ℕ) (c : M) → compact m room ≡ some c → bytes c ≤ room)
      → used ≡ total selected
      → used ≤ budget
      → total (fit_loop budget candidates used selected) ≤ budget
  unfolding fit_loop total unshift
  fit_loop-total budget [] used selected fits same le = omega arith
  fit_loop-total budget (m ∷ older) used selected fits same le =
      elim (Bool-cases (leb (used + bytes m) budget)) [
        | inl room ↦ rw room (
            fit_loop-total budget older (used + bytes m) (m ∷ selected) fits (omega arith)
              (ground arith))
        | inr full ↦ elim (Bool-cases (is_empty selected && ltb 128 (budget - used))) [
          | inl first ↦ elim (Option-cases (compact m (budget - used))) [
            | inl nothing ↦ rw (full, first, nothing) (omega arith)
            | inr (c, made) ↦
                let small = fits m (budget - used) c made in
                rw (full, first, made) (omega (arith, small))
          ]
          | inr rest ↦ rw (full, rest) (omega arith)
        ]
      ]

  -- If a compacted message takes no more bytes than it is given, the messages that are kept take no
  -- more bytes together than four for each token of the budget, whatever the history holds.
  pub fit_history_to_budget-le :
      (max_messages max_tokens : JsNumber) (history : List M)
      → ((m : M) (room : ℕ) (c : M) → compact m room ≡ some c → bytes c ≤ room)
      → total (fit_history_to_budget max_messages max_tokens history)
        ≤ number_from_env max_tokens 12000 64 64000 * 4
  unfolding fit_history_to_budget total
  fit_history_to_budget-le max_messages max_tokens history fits =
      fit_loop-total (number_from_env max_tokens 12000 64 64000 * 4)
        (reverse (take_last (number_from_env max_messages 20 1 40) history)) 0 [] fits refl
        (omega arith)
