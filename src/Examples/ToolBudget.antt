-- ===== src/Examples/ToolBudget.antt =====
-- Four calls on a budget of tool-execution-budget.js.
use magento2_chat_ai.Prelude.{
  ℕ, ◌+◌, ◌≤◌, ◌≡◌, Bool, true, false, List, [], ◌∷◌, arith, ℕ_discrete, length,
}
use magento2_chat_ai.Orchestration.ToolBudget.{Config, initial}
use magento2_chat_ai.Orchestration.ToolBudget.Laws.{
  admitted, admitted_categories, run, admitted-executions,
}

abbrev two : Config
two = record { max_executions = 2; max_category_calls = 1; block_duplicates = true }

abbrev calls : List (Bool × ℕ)
calls = (true, 1) ∷ (false, 1) ∷ (true, 2) ∷ (false, 3) ∷ []

admitted-executions_example :
    ((run ℕ_discrete two calls initial).executions
      ≡ 0 + length (admitted ℕ_discrete two calls initial))
    × (0 + length (admitted ℕ_discrete two calls initial) ≤ 2)
    × ((run ℕ_discrete two calls initial).category_calls
        ≡ 0 + admitted_categories ℕ_discrete two calls initial)
    × (0 + admitted_categories ℕ_discrete two calls initial ≤ 1)
admitted-executions_example = admitted-executions ℕ_discrete two calls initial (record {
  executions_le = omega arith;
  category_le = omega arith;
  category_le_executions = omega arith;
})
