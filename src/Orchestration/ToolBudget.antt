-- ===== src/Orchestration/ToolBudget.antt =====
-- `createToolExecutionBudget` of tool-execution-budget.js. Fingerprints are values of a type with
-- decidable equality; the function of tool-activity.js that builds them is a parameter.
pub mod Laws
use magento2_chat_ai.JsNumber.{JsNumber, number_from_env}
use magento2_chat_ai.Prelude.{
  ℕ, ◌+◌, Bool, true, false, ◌&&◌, List, [], ◌∷◌, leb, ite, if◌then◌else◌,
}

pub record Config : Type 0 where
  pub max_executions : ℕ
  pub max_category_calls : ℕ
  pub block_duplicates : Bool

-- `block_duplicate_tool_calls !== false` is passed as a flag.
unfoldable pub read_config : JsNumber → JsNumber → Bool → Config
unfolding number_from_env
read_config max_tool_executions max_category_calls block_duplicates = record {
  max_executions = number_from_env max_tool_executions 15 1 30;
  max_category_calls = number_from_env max_category_calls 3 1 10;
  block_duplicates = block_duplicates;
}

pub record Budget (F : Type 0) : Type 0 where
  pub seen : List F
  pub executions : ℕ
  pub category_calls : ℕ

pub data Reason : Type 0 where
  tool_execution_budget_exhausted category_call_budget_exhausted duplicate_tool_call : Reason

pub data Answer : Type 0 where
  allowed : Answer
  refused : Reason → Answer

abbrev pub initial : {F : Type 0} → Budget F
initial = record { seen = []; executions = 0; category_calls = 0 }

unfoldable pub exhausted : {F : Type 0} → Config → Budget F → Bool
exhausted c b = leb c.max_executions b.executions

module _ {F : Type 0} (dec : Discrete F) where
  unfoldable pub has : F → List F → Bool
  has f [] = false
  has f (g ∷ gs) = ite (dec f g) true (has f gs)

  -- A call is its name's being `listCategories`, and its fingerprint. The set of seen fingerprints
  -- has no duplicates, so one that is in it is not added again.
  unfoldable pub reserve : Config → Bool → F → Budget F → Answer × Budget F
  unfolding has
  reserve c is_category f b =
      if leb c.max_executions b.executions
      then (refused tool_execution_budget_exhausted, b)
      else if is_category && leb c.max_category_calls b.category_calls
      then (refused category_call_budget_exhausted, b)
      else if c.block_duplicates && has f b.seen
      then (refused duplicate_tool_call, b)
      else (
        allowed,
        record {
          seen = if has f b.seen then b.seen else f ∷ b.seen;
          executions = b.executions + 1;
          category_calls = if is_category then b.category_calls + 1 else b.category_calls;
        },
      )
