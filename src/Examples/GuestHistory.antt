-- ===== src/Examples/GuestHistory.antt =====
-- A guest's conversation of guest-session-history.js.
use magento2_chat_ai.Prelude.{ℕ, true, false, none, some, List, [], ◌∷◌}
use magento2_chat_ai.JsMap
use magento2_chat_ai.Conversation.GuestHistory.{State, read, normalize_store}
use magento2_chat_ai.Conversation.GuestHistory.Ids.{
  Event, creates, appends, truncates, clears, run, IsRising, run-IsRising,
}

abbrev empty : State ℕ ℕ
empty = record { last_generated_id = 0; cached = none }

abbrev events : List (Event ℕ ℕ)
events =
    creates 1 500 9
    ∷ appends 1 400 1500 true 7
    ∷ appends 1 400 1500 false 8
    ∷ truncates 2 1500 1501
    ∷ clears
    ∷ []

run-IsRising_example : IsRising (run events empty)
unfolding read normalize_store JsMap.get
run-IsRising_example = run-IsRising events empty (λ j. tt)

abbrev chat : State ℕ ℕ
chat = record {
  last_generated_id = 3;
  cached = some (record {
    conversations = record { id = 1; title = 9; created_at = 0; updated_at = 0 } ∷ [];
    messages =
        (
          1,
          record { entity_id = 2; is_user = true; payload = 7; created_at = 0 }
              ∷ record { entity_id = 3; is_user = false; payload = 8; created_at = 0 }
              ∷ [],
        )
        ∷ [];
  });
}
