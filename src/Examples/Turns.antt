-- ===== src/Examples/Turns.antt =====
-- openai-compatible-orchestrator.js: an answer that looks a product up.
use magento2_chat_ai.Orchestration.Turns.{
  ToolFlow, Reply, Run, streamed, ran, run_turns, first_turn, ToolCall,
}
use magento2_chat_ai.Orchestration.Turns.Paired.{KeepsPaired, run_turns-KeepsPaired}
use magento2_chat_ai.Prelude.{ℕ, zero, suc, ◌+◌, true, false, some, [], ◌∷◌}
use magento2_chat_ai.Text.{Text, codes}

-- Its state is the number of the tools that ran.
abbrev flow : ToolFlow ℕ Text
flow = record {
  should_force_product_availability = λ n. false;
  should_force_catalog_need_resolution = λ n. false;
  should_force_catalog_anchor_resolution = λ n. false;
  should_force_category_discovery = λ n. false;
  should_force_product_search = λ n. false;
  execute = λ c n. (
    ran (record {
      arguments = c.arguments;
      model_context = codes "[]";
      error = [];
      stop_after_tool_batch = false;
    }),
    n + 1,
  );
  pending_product_presentation = λ n. some (codes "products");
  tool_error_message = λ n. [];
  accepts_language = λ t n. true;
  accepts_catalog_grounding = λ t n. true;
}

abbrev search : ToolCall
search = record { call_id = codes "c1"; name = codes "searchProducts"; arguments = codes "{}" }

abbrev provider : ℕ → ℕ → Reply
provider zero attempt = streamed (record { content = []; tool_calls = search ∷ search ∷ [] }) []
provider (suc i) attempt =
    streamed (record { content = codes "We have two."; tool_calls = [] }) (codes "stop")

abbrev calm : Run
calm = record {
  is_cancelled = λ n. false;
  emit_throws = λ n. false;
  emit_error = record { message = []; is_abort = false; is_retryable = false };
}

abbrev print : ℕ → Text
print n = (48 + n) ∷ []

run_turns-KeepsPaired_example :
    KeepsPaired (run_turns flow calm print provider 2 1 0 (first_turn 0))
run_turns-KeepsPaired_example = run_turns-KeepsPaired flow calm print provider 2 1 0
