-- ===== src/Examples/Locks.antt =====
-- A lock of gateway-runtime.js that stays held over a rival attempt and a foreign release.
use magento2_chat_ai.Prelude.{ℕ, ◌≡◌, inr, refl, none, List, [], ◌∷◌, arith, ℕ_discrete}
use magento2_chat_ai.JsMap
use magento2_chat_ai.JsNumber.{nan, number_from_env}
use magento2_chat_ai.Runtime.Locks.{acquire_action_lock, is_held}
use magento2_chat_ai.Runtime.Locks.Exclusion.{Event, acquire, release, run, acquire-held}

abbrev calls : List (Event ℕ)
calls = acquire 10 nan 6 1 ∷ release 6 1 ∷ []

acquire-held_example :
    acquire_action_lock ℕ_discrete 20 nan 8 1
      (run ℕ_discrete calls (acquire_action_lock ℕ_discrete 0 nan 5 1 []).1)
    ≡ (none, run ℕ_discrete calls (acquire_action_lock ℕ_discrete 0 nan 5 1 []).1)
unfolding acquire_action_lock is_held number_from_env JsMap.get
acquire-held_example =
    acquire-held ℕ_discrete 0 20 nan nan 5 8 1 [] calls refl (omega arith, (inr (omega arith), tt))
      (omega arith)
