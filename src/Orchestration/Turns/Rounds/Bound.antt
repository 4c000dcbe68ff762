-- ===== src/Orchestration/Turns/Rounds/Bound.antt =====
-- openai-compatible-orchestrator.js and tool-rounds.js: turns where no tool is forced.
use magento2_chat_ai.Orchestration.Turns.{
  ToolCall, ToolFlow, Next, go_on, leave, ended, Reply, is_forced, Run,
}
use magento2_chat_ai.Prelude.{ℕ, ◌<◌, ◌≡◌, Bool, true, false, List, [], ◌∷◌}
use magento2_chat_ai.Text.{Text}

module _ {S P : Type 0} (max_tool_rounds : ℕ) (flow : ToolFlow S P) (run : Run) where
  module _ (print : ℕ → Text) (provider : ℕ → ℕ → Reply)
      (free : (s : S) → is_forced flow run print provider max_tool_rounds s ≡ false) where
    -- Tools are called in the permitted rounds only.
    abbrev Permits : ℕ → List ToolCall → Type 0
    Permits i [] = Unit {0}
    Permits i (c ∷ cs) = i < max_tool_rounds

-- Whether the loop was left, by a `break` or a `return`.
unfoldable pub has_left : {S P : Type 0} → Next S P → Bool
has_left (go_on t) = false
has_left (leave t) = true
has_left (ended outcome t) = true
