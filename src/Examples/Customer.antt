-- ===== src/Examples/Customer.antt =====
-- Pending actions, cart requests and a verified guest of the customer services.
use magento2_chat_ai.JsMap
use magento2_chat_ai.Prelude.{ℕ, refl, true, false, none, some, List, [], ◌∷◌, arith}
use magento2_chat_ai.Customer.PendingAction
use magento2_chat_ai.Customer.PendingAction.{
  Pending, support, order, consume_pending_verification_action, has_pending_verification_action,
  handed_out, handed_out-le_one,
}
use magento2_chat_ai.Customer.BrowserCart
use magento2_chat_ai.Customer.BrowserCart.{created, IsSettled, run-IsSettled}
use magento2_chat_ai.Customer.GuestAccess.{World}

abbrev pending : Pending ℕ
pending = record {
  purpose = order;
  conversation_id = 3;
  content = 9;
  created_at = 0;
  expires_at = 600000;
}

abbrev verifications : List PendingAction.Event
verifications =
    PendingAction.consumes 5 support
    ∷ PendingAction.consumes 6 order
    ∷ PendingAction.consumes 7 order
    ∷ []

abbrev calls : List BrowserCart.Event
calls =
    BrowserCart.requests true true false 4
    ∷ BrowserCart.requests true true true 5
    ∷ BrowserCart.resolves 0 4 (some 1)
    ∷ BrowserCart.times_out 0
    ∷ BrowserCart.closes
    ∷ []

run-IsSettled_example : IsSettled (BrowserCart.run calls created)
unfolding JsMap.get
run-IsSettled_example =
    run-IsSettled calls created
      (record { made = λ id lt. absurd (omega (arith, lt)); unmade = λ id le. refl })

abbrev visitor : World ℕ ℕ ℕ
visitor = record {
  client = record { customer_id = 0; session = some 1; access = none };
  cache = [];
}
