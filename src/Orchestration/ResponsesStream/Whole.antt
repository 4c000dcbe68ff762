-- ===== src/Orchestration/ResponsesStream/Whole.antt =====
-- `readOpenAiResponsesStream` of openai-compatible-orchestrator.js: the bounds of the chunks do not matter.
use magento2_chat_ai.JsMap
use magento2_chat_ai.Orchestration.EventStream.{split_events, but_last}
use magento2_chat_ai.Orchestration.EventStream.Chunks.{join, read_all, chunks-read_all}
use magento2_chat_ai.Orchestration.OpenAiStream.{split_lines, is_text}
use magento2_chat_ai.Orchestration.ResponsesStream.{
  FunctionCall, Event, output_text_delta, reasoning_delta, reasoning_part_added,
  function_call_added, arguments_delta, arguments_done, completed, unknown, Payload, Progress,
  no_progress, same_id, hand_over, change_call, handle, data_line, read_parsed, read_payload,
  read_event, hand_over_calls, finish_stream, read_open_ai_responses_stream,
}
use magento2_chat_ai.Prelude.{
  ◌≡◌, refl, ap, ◌∙◌, true, false, inl, inr, Option, none, some, List, [], length, drop, ◌==◌,
  Bool-cases,
}
use magento2_chat_ai.Text.{Text, codes, filled, trim}

module _ {U : Type 0} where
  change_complete :
      (f : FunctionCall → FunctionCall) (call_id : Text) (p : Progress U)
      → (change_call f call_id p).stream_complete ≡ p.stream_complete
  unfolding change_call
  change_complete f call_id p = by_call (JsMap.get same_id call_id p.calls)
    where
      by_call :
          (o : Option FunctionCall)
          → (elim o as (λ x. Progress U) [
            | none ↦ p
            | some call ↦ record p { calls = JsMap.set same_id call_id (f call) p.calls }
          ]).stream_complete
            ≡ p.stream_complete
      by_call none = refl
      by_call (some call) = refl

  handle_complete :
      (e : Event) (p : Progress U) → p.stream_complete ≡ true → (handle e p).stream_complete ≡ true
  unfolding handle hand_over
  handle_complete (output_text_delta text) p h = h
  handle_complete (reasoning_delta text) p h = h
  handle_complete (reasoning_part_added text) p h = elim (Bool-cases (filled text)) [
    | inl f ↦ rw f h
    | inr f ↦ rw f h
  ]
  handle_complete (function_call_added call) p h = h
  handle_complete (arguments_delta call_id text) p h = change_complete _ call_id p ∙ h
  handle_complete (arguments_done call_id text) p h = change_complete _ call_id p ∙ h
  handle_complete (completed status found) p h = refl
  handle_complete unknown p h = h

  module _ (parse : Text → Option (Payload U)) where
    parsed_complete :
        (o : Option (Payload U)) (p : Progress U)
        → p.stream_complete ≡ true
        → (read_parsed parse o p).stream_complete ≡ true
    unfolding read_parsed
    parsed_complete none p h = h
    parsed_complete (some payload) p h = handle_complete payload.event _ h

    payload_complete :
        (payload : Text) (p : Progress U)
        → p.stream_complete ≡ true
        → (read_payload parse payload p).stream_complete ≡ true
    unfolding read_payload
    payload_complete payload p h = elim (Bool-cases (length payload == 0)) [
      | inl e ↦ rw e h
      | inr e ↦ elim (Bool-cases (is_text (codes "[DONE]") payload)) [
        | inl f ↦ rw (e, f) refl
        | inr f ↦ rw (e, f) (parsed_complete (parse payload) p h)
      ]
    ]

    event_complete :
        (e : Text) (p : Progress U)
        → p.stream_complete ≡ true
        → (read_event parse e p).stream_complete ≡ true
    unfolding read_event
    event_complete e p h = elim (Bool-cases p.is_broken) [
      | inl b ↦ rw b h
      | inr b ↦ rw b (by_line (data_line (split_lines e)))
    ]
      where
        by_line :
            (o : Option Text)
            → (elim o as (λ x. Progress U) [
              | none ↦ p
              | some line ↦ read_payload parse (trim (drop 5 line)) p
            ]).stream_complete
              ≡ true
        by_line none = h
        by_line (some line) = payload_complete (trim (drop 5 line)) p h

    event_halts : (e : Text) (p : Progress U) → p.is_broken ≡ true → read_event parse e p ≡ p
    unfolding read_event
    event_halts e p h = rw h refl

    -- A stream of the responses protocol that is not cancelled, and in which no event but the last
    -- whole one may be the end, is read as its whole text is, however it was cut into chunks.
    pub responses-chunks_irrelevant :
        (chunks : List Text)
        → (read_all
            (read_event parse)
            (but_last (but_last (split_events (join chunks))))
            no_progress).stream_complete
          ≡ false
        → read_open_ai_responses_stream parse (λ n. false) chunks
          ≡ some (
              hand_over_calls parse
                (read_all (read_event parse) (but_last (split_events (join chunks))) no_progress))
    unfolding read_open_ai_responses_stream finish_stream but_last
    responses-chunks_irrelevant chunks h = ap (finish_stream parse) (
        chunks-read_all (read_event parse) (λ p. p.stream_complete) (λ p. p.is_broken)
          event_complete event_halts chunks [] 0 no_progress refl refl h)
