-- ===== src/Examples/Capacity.antt =====
-- A queue of gateway-runtime.js with one slot.
use magento2_chat_ai.Prelude.{
  ◌-◌, ◌<◌, ◌≡◌, ◌≢◌, false, none, List, [], ◌∷◌, refl, arith, ℕ_discrete, keep,
}
use magento2_chat_ai.JsMap
use magento2_chat_ai.Runtime.Capacity.{
  Gate, Options, waiting, granted, register, release_capacity, poll, cleanup, try_grant, is_first,
  leave,
}
use magento2_chat_ai.Runtime.Capacity.Laws.{
  Event, registers, polls, releases, apply, run, IsBounded, run_gate-IsBounded, poll_ends,
}
use magento2_chat_ai.Runtime.Capacity.Order.{granted-in_order}

abbrev one_slot : Options
one_slot = record { concurrency = 1; max_queue = 2; queue_wait_ms = 30000; lease_ms = 90000 }

abbrev idle : Gate
idle = record { queue = []; semaphore = [] }

abbrev queued : Gate
queued = record { queue = (5, 0) ∷ (6, 1) ∷ []; semaphore = [] }

abbrev calls : List Event
calls = registers 0 5 ∷ registers 1 6 ∷ polls 2 false 0 5 ∷ polls 3 false 1 6 ∷ releases 5 ∷ []

run_gate-IsBounded_example : IsBounded one_slot (run one_slot calls idle)
run_gate-IsBounded_example =
    run_gate-IsBounded one_slot calls idle (record { served = omega arith; queued = omega arith })

poll_ends_example :
    ((poll 10 false 1 one_slot 6 queued).0 ≡ waiting → (10 - 1 < 30000) × (false ≡ false))
    × ((poll 10 false 1 one_slot 6 queued).0 ≢ waiting
        → JsMap.get ℕ_discrete 6 (poll 10 false 1 one_slot 6 queued).1.queue ≡ none)
poll_ends_example = poll_ends 10 false 1 one_slot 6 queued

abbrev one_waits : Gate
one_waits = record { queue = (5, 0) ∷ []; semaphore = (9, 100) ∷ [] }

abbrev freed : List Event
freed = polls 2 false 1 6 ∷ releases 9 ∷ []

-- The slot is free, and the first request still waits.
granted-in_order_example :
    (poll 3 false 1 one_slot 6 (run one_slot freed (register 1 one_slot 6 one_waits).1)).0
    ≢ granted 2
unfolding run apply register poll cleanup try_grant is_first leave keep release_capacity JsMap.get
    JsMap.set JsMap.delete ℕ_discrete
granted-in_order_example =
    granted-in_order one_slot 5 6 1 one_waits freed 3 false 1 2 (λ e. cc) refl (tt, (tt, tt))
      (λ e. cc)
