-- ===== src/Examples/Stream.antt =====
-- Streams of providers and calls of tools that come in parts.
use magento2_chat_ai.Orchestration.OpenAiStream.{
  Chunk, no_progress, read_event, read_open_ai_stream,
}
use magento2_chat_ai.Orchestration.EventStream.{split_events, but_last}
use magento2_chat_ai.Orchestration.EventStream.Chunks.{join, read_all}
use magento2_chat_ai.Orchestration.OpenAiStream.Chunks.{read-chunks_irrelevant}
use magento2_chat_ai.Orchestration.ToolCalls.{
  Delta, collect_tool_calls, arguments_at, arguments_for, collect_tool_calls-arguments,
}
use magento2_chat_ai.Prelude.{ℕ, ◌≡◌, refl, Option, none, some, List, [], ◌∷◌, ◌++◌, false}
use magento2_chat_ai.Text.{Text, codes}

-- A parser that takes every payload for a delta.
abbrev parse : Text → Option (Chunk ℕ Text)
parse payload = some (record { usage = none; finish_reason = []; delta = payload })

abbrev break : Text
break = 10 ∷ 10 ∷ []

-- Two events, cut in the middle of a word and of the line that ends the first.
abbrev sent : List Text
sent = (codes "data: a" ++ 10 ∷ []) ∷ (10 ∷ codes "da") ∷ (codes "ta: [DONE]" ++ break) ∷ []

read-chunks_irrelevant_example :
    read_open_ai_stream parse (λ n. false) sent
    ≡ some (read_all (read_event parse) (but_last (split_events (join sent))) no_progress)
unfolding read_all read_event split_events but_last join
read-chunks_irrelevant_example = read-chunks_irrelevant parse sent refl

abbrev part : ℕ → Text → Delta
part i text = record { index = some i; call_id = []; kind = []; name = []; arguments = text }

-- The parts of two calls, mixed.
abbrev parts : List Delta
parts = part 0 (codes "a") ∷ part 1 (codes "x") ∷ part 0 (codes "b") ∷ []

collect_tool_calls-arguments_example :
    arguments_at (collect_tool_calls (codes "function") parts []) 0
    ≡ arguments_at [] 0 ++ arguments_for 0 parts
collect_tool_calls-arguments_example =
    collect_tool_calls-arguments (codes "function") parts 0 []
      ((0, refl), ((1, refl), ((0, refl), tt)))

collected : arguments_at (collect_tool_calls (codes "function") parts []) 0 ≡ codes "ab"
unfolding collect_tool_calls arguments_at
collected = refl
