-- ===== src/Conversation/ActiveRun/Cancelling.antt =====
-- Who is told that a run was cancelled, for active-run-controller.js.
use magento2_chat_ai.JsMap
use magento2_chat_ai.Prelude.{
  ℕ, ◌+◌, ◌≤◌, ◌≡◌, refl, sym, ◌∙◌, ◌≢◌, Bool, true, false, ◌||◌, not, Bool-cases, Option, none,
  some, List, [], ◌∷◌, ◌==◌, if◌then◌else◌, or_else, ℕ_discrete, arith, inl, inr,
}
use magento2_chat_ai.Conversation.ActiveRun.{
  Reason, user_stop, unset, Run, World, empty, notify_run, notify_cancelled, other_request,
  cancel_run, cancel_found, cancel_active_run, create_active_run, is_run, clear_active_run,
}

abbrev pub notified : Option Run → ℕ
notified none = 0
notified (some r) = if r.cancel_notified then 1 else 0

some_is_not : {A : Type 0} (x : A) → some x ≡ none → ⊥
some_is_not x e = cc

-- What a client of the controller may do: `is_open` says whether the socket is open.
pub data Event (S : Type 0) : Type 0 where
  cancels : (is_open : Bool) (ws : S) (request_id : Option ℕ) (reason : Reason) → Event S
  creates : (is_open : Bool) (ws : S) (request_id : Option ℕ) (generated : ℕ) → Event S
  clears : (ws : S) (id : ℕ) → Event S
  notifies : (is_open : Bool) (ws : S) (id : ℕ) → Event S

module _ {S : Type 0} where
  -- How many `cancelled` messages were sent for a run.
  abbrev pub told : ℕ → List (S × ℕ) → ℕ
  told id [] = 0
  told id ((ws, i) ∷ sent) = if id == i then told id sent + 1 else told id sent

  -- The messages sent for a run are one, or none, as its flag says; later ids are unused.
  pub record IsCounted (w : World S) : Type 0 where
    pub counted : (id : ℕ) → told id w.sent ≡ notified (JsMap.get ℕ_discrete id w.runs)
    pub unused : (id : ℕ) → w.next_run ≤ id → JsMap.get ℕ_discrete id w.runs ≡ none

  -- A write of a run that is there.
  put : ℕ → Run → List (S × ℕ) → World S → World S
  put id r sent w = record w { runs = JsMap.set ℕ_discrete id r w.runs; sent = sent }

  put-IsCounted :
      (id : ℕ) (r r' : Run) (sent : List (S × ℕ)) (w : World S)
      → IsCounted w
      → JsMap.get ℕ_discrete id w.runs ≡ some r
      → told id sent ≡ notified (some r')
      → ((j : ℕ) → id ≢ j → told j sent ≡ told j w.sent)
      → IsCounted (put id r' sent w)
  unfolding put
  put-IsCounted id r r' sent w h there here others = record {
    counted = λ j. elim (ℕ_discrete id j) [
      | yes same ↦ ground (arith, here, JsMap.get-set ℕ_discrete id j r' w.runs)
      | no other ↦
          ground (arith, others j other, h.counted j, JsMap.get-set ℕ_discrete id j r' w.runs)
    ];
    unused = λ j le. elim (ℕ_discrete id j) [
      | yes same ↦ absurd (some_is_not r (sym (rw same at there) ∙ h.unused j le))
      | no other ↦ ground (arith, h.unused j le, JsMap.get-set ℕ_discrete id j r' w.runs)
    ];
  }

  notify_run-IsCounted :
      (is_open : Bool) (ws : S) (id : ℕ) (o : Option Run) (w : World S)
      → JsMap.get ℕ_discrete id w.runs ≡ o
      → IsCounted w
      → IsCounted (notify_run is_open ws id o w)
  unfolding notify_run put
  notify_run-IsCounted is_open ws id none w e h = h
  notify_run-IsCounted is_open ws id (some r) w e h =
      elim (Bool-cases (r.cancel_notified || not is_open)) [
        | inl quiet ↦ rw quiet h
        | inr loud ↦
            let fresh : r.cancel_notified ≡ false = ground (arith, loud) in
            let before = h.counted id in
            let none_yet : told id w.sent ≡ 0 = ground (arith, before, e, fresh) in
            rw loud (
              put-IsCounted id r (record r { cancel_notified = true }) ((ws, id) ∷ w.sent) w h e
                (ground (arith, none_yet)) (λ j other. ground (arith, other)))
      ]

  same_flag-IsCounted :
      (id : ℕ) (r r' : Run) (w : World S)
      → IsCounted w
      → JsMap.get ℕ_discrete id w.runs ≡ some r
      → r'.cancel_notified ≡ r.cancel_notified
      → IsCounted (put id r' w.sent w)
  same_flag-IsCounted id r r' w h e same =
      put-IsCounted id r r' w.sent w h e (ground (arith, h.counted id, e, same)) (λ j other. refl)

  cancel_run-IsCounted :
      (is_open : Bool) (ws : S) (q : Option ℕ) (why : Reason) (id : ℕ) (o : Option Run)
      (w : World S)
      → JsMap.get ℕ_discrete id w.runs ≡ o
      → IsCounted w
      → IsCounted (cancel_run is_open ws q why id o w).1
  unfolding cancel_run put notify_cancelled
  cancel_run-IsCounted is_open ws q why id none w e h = h
  cancel_run-IsCounted is_open ws q why id (some r) w e h =
      let r' = record r { cancelled = true; aborted = true; reason = why } in
      let h' = same_flag-IsCounted id r r' w h e refl in
      let w' = put id r' w.sent w in
      elim (Bool-cases (other_request q r)) [
        | inl stale ↦ rw stale h
        | inr meant ↦
            rw meant
              (notify_run-IsCounted is_open ws id (JsMap.get ℕ_discrete id w'.runs) w' refl h')
      ]

module _ {S : Type 0} (dec : Discrete S) where
  cancel-IsCounted :
      (is_open : Bool) (ws : S) (q : Option ℕ) (why : Reason) (w : World S)
      → IsCounted w
      → IsCounted (cancel_active_run dec is_open ws q why w).1
  unfolding cancel_active_run cancel_found
  cancel-IsCounted is_open ws q why w h = go (JsMap.get dec ws w.active)
    where
      go : (o : Option ℕ) → IsCounted (cancel_found dec is_open ws q why o w).1
      go none = h
      go (some id) =
          cancel_run-IsCounted is_open ws q why id (JsMap.get ℕ_discrete id w.runs) w refl h

  create-IsCounted :
      (is_open : Bool) (ws : S) (q : Option ℕ) (generated : ℕ) (w : World S)
      → IsCounted w
      → IsCounted (create_active_run dec is_open ws q generated w).1
  unfolding create_active_run
  create-IsCounted is_open ws q generated w h =
      let w' = (cancel_active_run dec is_open ws none user_stop w).1 in
      let h' : IsCounted w' = cancel-IsCounted is_open ws none user_stop w h in
      let r : Run = record {
        request_id = or_else q generated;
        aborted = false;
        cancelled = false;
        cancel_notified = false;
        reason = unset;
      } in
      let free = h'.unused w'.next_run (omega arith) in
      record {
        counted = λ j. elim (ℕ_discrete w'.next_run j) [
          | yes same ↦
              ground
                (arith, h'.counted j, same, free, JsMap.get-set ℕ_discrete w'.next_run j r w'.runs)
          | no other ↦
              ground (arith, other, h'.counted j, JsMap.get-set ℕ_discrete w'.next_run j r w'.runs)
        ];
        unused = λ j le.
            let later : w'.next_run ≢ j = λ same. omega (arith, same, le) in
            ground (
              arith,
              later,
              h'.unused j (omega (arith, le)),
              JsMap.get-set ℕ_discrete w'.next_run j r w'.runs,
            );
      }

  clear-IsCounted :
      (ws : S) (id : ℕ) (w : World S) → IsCounted w → IsCounted (clear_active_run dec ws id w)
  unfolding clear_active_run
  clear-IsCounted ws id w h = elim (Bool-cases (is_run id (JsMap.get dec ws w.active))) [
    | inl own ↦ rw own (record { counted = h.counted; unused = h.unused })
    | inr other ↦ rw other h
  ]

  unfoldable pub step : Event S → World S → World S
  step (cancels is_open ws q why) w = (cancel_active_run dec is_open ws q why w).1
  step (creates is_open ws q generated) w = (create_active_run dec is_open ws q generated w).1
  step (clears ws id) w = clear_active_run dec ws id w
  step (notifies is_open ws id) w = notify_cancelled is_open ws id w

  unfoldable pub run : List (Event S) → World S → World S
  unfolding step
  run [] w = w
  run (ev ∷ evs) w = run evs (step ev w)

  step-IsCounted : (ev : Event S) (w : World S) → IsCounted w → IsCounted (step ev w)
  unfolding step notify_cancelled
  step-IsCounted (cancels is_open ws q why) w h = cancel-IsCounted is_open ws q why w h
  step-IsCounted (creates is_open ws q generated) w h = create-IsCounted is_open ws q generated w h
  step-IsCounted (clears ws id) w h = clear-IsCounted ws id w h
  step-IsCounted (notifies is_open ws id) w h =
      notify_run-IsCounted is_open ws id (JsMap.get ℕ_discrete id w.runs) w refl h

  run-Counted : (evs : List (Event S)) (w : World S) → IsCounted w → IsCounted (run evs w)
  unfolding run
  run-Counted [] w h = h
  run-Counted (ev ∷ evs) w h = run-Counted evs (step ev w) (step-IsCounted ev w h)

  -- Whatever cancels, creates, clears and notifications follow each other from a controller without
  -- runs, at most one `cancelled` message is sent for each run.
  pub run-told : (evs : List (Event S)) (id : ℕ) → told id (run evs empty).sent ≤ 1
  unfolding JsMap.get
  run-told evs id =
      let h = run-Counted evs empty (record { counted = λ j. refl; unused = λ j le. refl }) in
      ground (arith, h.counted id)
