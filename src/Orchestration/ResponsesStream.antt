-- ===== src/Orchestration/ResponsesStream.antt =====
-- `readOpenAiResponsesStream` of openai-compatible-orchestrator.js. `JSON.parse` and the reading of its
-- result's fields are an argument, which gives one of the events below.
pub mod Whole
use magento2_chat_ai.JsMap
use magento2_chat_ai.Orchestration.Envelope.{Citation, add_provider_citations}
use magento2_chat_ai.Orchestration.EventStream.{read_chunks}
use magento2_chat_ai.Orchestration.OpenAiStream.{split_lines, is_text, later_usage}
use magento2_chat_ai.Prelude.{
  ℕ, ◌+◌, Bool, true, false, Option, none, some, List, [], ◌∷◌, ◌++◌, map, length, drop, ◌==◌,
  ℕ_discrete, if◌then◌else◌,
}
use magento2_chat_ai.Text.{Text, codes, filled, filled_or, starts_with, trim}
use mathlib.Core.List.{List-discrete}

-- A call of `calls`, under its `call_id || id`.
pub record FunctionCall : Type 0 where
  pub call_id : Text
  pub name : Text
  pub arguments : Text

-- What a payload says, by its `type`. The texts of a delta of reasoning are `delta || text`, those of
-- a new part `text || summary_text`.
pub data Event : Type 0 where
  output_text_delta : Text → Event
  reasoning_delta : Text → Event
  reasoning_part_added : Text → Event
  function_call_added : FunctionCall → Event
  arguments_delta : Text → Text → Event
  arguments_done : Text → Text → Event
  completed : Text → List Citation → Event
  unknown : Event

pub record Payload (U : Type 0) : Type 0 where
  pub response_usage : Option U
  pub usage : Option U
  pub event : Event

-- What is handed to `onDelta`.
pub data Delta : Type 0 where
  content : Text → Delta
  reasoning : Text → Delta
  tool_calls : List FunctionCall → Delta

pub record Progress (U : Type 0) : Type 0 where
  pub finish_reason : Text
  pub usage : Option U
  pub citations : List Citation
  pub calls : List (Text × FunctionCall)
  pub deltas : List Delta
  pub stream_complete : Bool
  pub is_broken : Bool

abbrev pub no_progress : {U : Type 0} → Progress U
no_progress = record {
  finish_reason = [];
  usage = none;
  citations = [];
  calls = [];
  deltas = [];
  stream_complete = false;
  is_broken = false;
}

abbrev pub same_id : Discrete Text
same_id = List-discrete ℕ_discrete

unfoldable pub hand_over : {U : Type 0} → Delta → Progress U → Progress U
hand_over d p = record p { deltas = p.deltas ++ d ∷ [] }

-- `calls.get(call_id)` and what is done to the call, where there is one.
unfoldable pub change_call :
    {U : Type 0} → (FunctionCall → FunctionCall) → Text → Progress U → Progress U
unfolding JsMap.get JsMap.set
change_call f call_id p = elim (JsMap.get same_id call_id p.calls) [
  | none ↦ p
  | some call ↦ record p { calls = JsMap.set same_id call_id (f call) p.calls }
]

unfoldable pub handle : {U : Type 0} → Event → Progress U → Progress U
unfolding hand_over change_call filled filled_or add_provider_citations JsMap.set
handle (output_text_delta text) p = hand_over (content text) p
handle (reasoning_delta text) p = hand_over (reasoning text) p
handle (reasoning_part_added text) p = if filled text then hand_over (reasoning text) p else p
handle (function_call_added call) p = record p {
  calls = JsMap.set same_id call.call_id call p.calls;
}
handle (arguments_delta call_id text) p =
    change_call (λ call. record call { arguments = call.arguments ++ text }) call_id p
handle (arguments_done call_id text) p =
    change_call
      (λ call. record call { arguments = filled_or text (filled_or call.arguments (codes "{}")) })
      call_id p
handle (completed status found) p = record p {
  finish_reason = filled_or status (codes "stop");
  citations = add_provider_citations p.citations found;
  stream_complete = true;
}
handle unknown p = p

-- `.find((line) => line.startsWith('data:'))`, of the trimmed lines.
unfoldable pub data_line : List Text → Option Text
unfolding starts_with trim
data_line [] = none
data_line (l ∷ ls) =
    let rest = data_line ls in if starts_with (codes "data:") (trim l) then some (trim l) else rest

module _ {U : Type 0} (parse : Text → Option (Payload U)) where
  unfoldable pub read_parsed : Option (Payload U) → Progress U → Progress U
  unfolding handle later_usage
  read_parsed none p = p
  read_parsed (some payload) p =
      handle payload.event (record p {
        usage = later_usage payload.usage (later_usage payload.response_usage p.usage);
      })

  unfoldable pub read_payload : Text → Progress U → Progress U
  unfolding is_text read_parsed
  read_payload payload p =
      if length payload == 0
      then p
      else if is_text (codes "[DONE]") payload
      then record p { stream_complete = true; is_broken = true }
      else read_parsed (parse payload) p

  -- The event of a chunk; those after the marker of the end are left unread.
  unfoldable pub read_event : Text → Progress U → Progress U
  unfolding data_line split_lines read_payload trim
  read_event event p =
      let read : Progress U = elim (data_line (split_lines event)) [
        | none ↦ p
        | some line ↦ read_payload (trim (drop 5 line)) p
      ] in
      if p.is_broken then p else read

  -- The calls, handed over at the end.
  unfoldable pub hand_over_calls : Progress U → Progress U
  unfolding hand_over
  hand_over_calls p = elim p.calls [
    | [] ↦ p
    | ◌∷◌ c cs ↦ hand_over (tool_calls (map (λ (e : Text × FunctionCall). e.1) p.calls)) p
  ]

  unfoldable pub finish_stream : Option (Progress U) → Option (Progress U)
  unfolding hand_over_calls
  finish_stream none = none
  finish_stream (some p) = some (hand_over_calls p)

  unfoldable pub read_open_ai_responses_stream : (ℕ → Bool) → List Text → Option (Progress U)
  unfolding read_chunks read_event finish_stream
  read_open_ai_responses_stream is_cancelled chunks = finish_stream (
      read_chunks read_event (λ p. p.stream_complete) (λ p. p.is_broken) is_cancelled chunks [] 0
        no_progress)
