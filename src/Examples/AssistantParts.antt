-- ===== src/Examples/AssistantParts.antt =====
-- The parts of an answer.
use magento2_chat_ai.Conversation.AssistantParts.{
  Message, chunk, products_html, tool_activity, Part, text_part, products, reasoning, record_all,
}
use magento2_chat_ai.Conversation.AssistantParts.ActivityRuns.{AllSound, record_all-AllSound}
use magento2_chat_ai.Conversation.AssistantParts.Runs.{IsShaped, record_all-IsShaped}
use magento2_chat_ai.Conversation.AssistantParts.Sent.{texts, sent_text, record_all-texts}
use magento2_chat_ai.Prelude.{◌≡◌, refl, Option, none, some, List, [], ◌∷◌, map}
use magento2_chat_ai.Text.{Text, codes}

abbrev activity : Text → Option Text → Message
activity id state = tool_activity (record {
  tool = codes "searchProducts";
  activity_id = id;
  state = state;
  result_count = none;
  label = none;
  language = [];
  turn_summary = [];
  continuation_key = [];
  timeline_key = codes "timeline-a";
})

-- A search that goes on under another id and starts again, products twice, and text around them.
abbrev sent : List Message
sent =
    chunk (codes "Hi")
    ∷ activity (codes "1") none
    ∷ activity (codes "2") (some (codes "done"))
    ∷ chunk (codes ", ")
    ∷ products_html (codes "a") none
    ∷ activity (codes "1") (some (codes "running"))
    ∷ products_html (codes "b") none
    ∷ chunk (codes "look")
    ∷ []

record_all-IsShaped_example : IsShaped (record_all sent 0 [])
record_all-IsShaped_example = record_all-IsShaped sent 0

record_all-AllSound_example : AllSound (record_all sent 0 [])
record_all-AllSound_example = record_all-AllSound sent 0

record_all-texts_example : texts (record_all sent 0 []) ≡ codes "Hi, look"
unfolding sent_text
record_all-texts_example = record_all-texts sent 0 tt

abbrev kinds : Part → Text
kinds (text_part raw) = raw
kinds (products html payload) = html
kinds (reasoning r) = codes "reasoning"
kinds _ = []

stands :
    map kinds (record_all sent 0 [])
    ≡ codes "reasoning" ∷ codes "Hi, " ∷ codes "b" ∷ codes "look" ∷ []
unfolding record_all
stands = refl
