-- ===== src/Examples/ActiveRun.antt =====
-- Runs of active-run-controller.js.
use magento2_chat_ai.Prelude.{ℕ, ◌≤◌, true, none, some, List, [], ◌∷◌, ℕ_discrete}
use magento2_chat_ai.Conversation.ActiveRun.{empty, user_stop}
use magento2_chat_ai.Conversation.ActiveRun.Cancelling.{
  Event, cancels, creates, told, run, run-told,
}

abbrev events : List (Event ℕ)
events = creates true 1 none 7 ∷ cancels true 1 (some 7) user_stop ∷ creates true 1 none 8 ∷ []

run-told_example : told 0 (run ℕ_discrete events empty).sent ≤ 1
run-told_example = run-told ℕ_discrete events 0
