-- ===== src/Conversation/ActiveRun.antt =====
-- `createActiveRunController` of active-run-controller.js. Runs are shared objects: they live in a
-- store under numbers, and the map of active runs holds their numbers.
pub mod Cancelling
use magento2_chat_ai.JsMap
use magento2_chat_ai.Prelude.{
  ℕ, suc, ◌+◌, Bool, true, false, ◌||◌, not, Option, none, some, List, [], ◌∷◌, ◌==◌, if◌then◌else◌,
  or_else, ℕ_discrete,
}

pub data Reason : Type 0 where
  unset connection_lost user_stop : Reason

-- A request id is a number; `cancelled` goes with the abort of the run's controller.
pub record Run : Type 0 where
  pub request_id : ℕ
  pub aborted : Bool
  pub cancelled : Bool
  pub cancel_notified : Bool
  pub reason : Reason

pub record World (S : Type 0) : Type 0 where
  pub runs : List (ℕ × Run)
  pub next_run : ℕ
  pub active : List (S × ℕ)
  -- The `cancelled` messages that were sent, newest first: the socket and the run.
  pub sent : List (S × ℕ)

abbrev pub empty : {S : Type 0} → World S
empty = record { runs = []; next_run = 0; active = []; sent = [] }

-- `requestId && run.requestId !== requestId`.
abbrev pub other_request : Option ℕ → Run → Bool
other_request none r = false
other_request (some q) r = not (r.request_id == q)

abbrev pub is_run : ℕ → Option ℕ → Bool
is_run id none = false
is_run id (some i) = i == id

unfoldable pub is_run_cancelled : Option Run → Bool
is_run_cancelled none = true
is_run_cancelled (some r) = r.cancelled || r.aborted

module _ {S : Type 0} where
  unfoldable pub notify_run : Bool → S → ℕ → Option Run → World S → World S
  notify_run is_open ws id none w = w
  notify_run is_open ws id (some r) w = if r.cancel_notified || not is_open then w else record w {
    runs = JsMap.set ℕ_discrete id (record r { cancel_notified = true }) w.runs;
    sent = (ws, id) ∷ w.sent;
  }

  -- `isSocketOpen(ws)` is an argument.
  unfoldable pub notify_cancelled : Bool → S → ℕ → World S → World S
  unfolding notify_run
  notify_cancelled is_open ws id w = notify_run is_open ws id (JsMap.get ℕ_discrete id w.runs) w

  unfoldable pub cancel_run :
      Bool → S → Option ℕ → Reason → ℕ → Option Run → World S → Bool × World S
  cancel_run is_open ws request_id reason id none w = (false, w)
  cancel_run is_open ws request_id reason id (some r) w =
      if other_request request_id r
      then (false, w)
      else let r' = record r { cancelled = true; aborted = true; reason = reason } in
        (
          true,
          notify_cancelled is_open ws id (record w { runs = JsMap.set ℕ_discrete id r' w.runs }),
        )

module _ {S : Type 0} (dec : Discrete S) where
  unfoldable pub cancel_found : Bool → S → Option ℕ → Reason → Option ℕ → World S → Bool × World S
  unfolding cancel_run
  cancel_found is_open ws request_id reason none w = (false, w)
  cancel_found is_open ws request_id reason (some id) w =
      cancel_run is_open ws request_id reason id (JsMap.get ℕ_discrete id w.runs) w

  unfoldable pub cancel_active_run : Bool → S → Option ℕ → Reason → World S → Bool × World S
  unfolding cancel_found
  cancel_active_run is_open ws request_id reason w =
      cancel_found is_open ws request_id reason (JsMap.get dec ws w.active) w

  -- `generated` is the id that the server makes up when the request has none.
  unfoldable pub create_active_run : Bool → S → Option ℕ → ℕ → World S → ℕ × World S
  create_active_run is_open ws request_id generated w =
      let w' = (cancel_active_run is_open ws none user_stop w).1 in
      let r : Run = record {
        request_id = or_else request_id generated;
        aborted = false;
        cancelled = false;
        cancel_notified = false;
        reason = unset;
      } in
      (
        w'.next_run,
        record w' {
          runs = JsMap.set ℕ_discrete w'.next_run r w'.runs;
          next_run = suc w'.next_run;
          active = JsMap.set dec ws w'.next_run w'.active;
        },
      )

  unfoldable pub clear_active_run : S → ℕ → World S → World S
  clear_active_run ws id w =
      if is_run id (JsMap.get dec ws w.active)
      then record w { active = JsMap.delete dec ws w.active }
      else w
