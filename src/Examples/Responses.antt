-- ===== src/Examples/Responses.antt =====
-- A stream of the responses protocol with one call of a tool.
use magento2_chat_ai.Orchestration.EventStream.{split_events, but_last}
use magento2_chat_ai.Orchestration.EventStream.Chunks.{join, read_all}
use magento2_chat_ai.Orchestration.ResponsesStream.{
  Event, function_call_added, output_text_delta, completed, Payload, no_progress, read_event,
  hand_over_calls, read_open_ai_responses_stream, data_line, read_payload, handle, read_parsed,
}
use magento2_chat_ai.Orchestration.ResponsesStream.Whole.{responses-chunks_irrelevant}
use magento2_chat_ai.Prelude.{
  ℕ, ◌≡◌, refl, false, Option, none, some, List, [], ◌∷◌, ◌++◌, if◌then◌else◌,
}
use magento2_chat_ai.Text.{Text, codes, text_eq}

-- Payloads of one letter.
abbrev event_of : Text → Event
event_of t =
    if text_eq t (codes "f")
    then function_call_added
        (record { call_id = codes "c1"; name = codes "searchProducts"; arguments = [] })
    else if text_eq t (codes "z")
    then completed (codes "completed") []
    else output_text_delta t

abbrev parse : Text → Option (Payload ℕ)
parse t = some (record { response_usage = none; usage = none; event = event_of t })

abbrev break : Text
break = 10 ∷ 10 ∷ []

abbrev sent : List Text
sent = codes "data: f" ∷ (break ++ codes "data: a") ∷ (break ++ codes "data: z") ∷ break ∷ []

sent-unfinished :
    (read_all
      (read_event parse)
      (but_last (but_last (split_events (join sent))))
      no_progress).stream_complete
    ≡ false
unfolding read_all read_event split_events but_last join handle read_parsed read_payload data_line
sent-unfinished = refl

responses-chunks_irrelevant_example :
    read_open_ai_responses_stream parse (λ n. false) sent
    ≡ some (
        hand_over_calls parse
          (read_all (read_event parse) (but_last (split_events (join sent))) no_progress))
responses-chunks_irrelevant_example = responses-chunks_irrelevant parse sent sent-unfinished
