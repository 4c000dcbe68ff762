-- ===== src/Orchestration/Turns/Paired.antt =====
-- openai-compatible-orchestrator.js: the tool calls of the messages and what they returned.
use magento2_chat_ai.Orchestration.Turns.{
  ToolCall, ToolFlow, Turn, Next, Message, told, answered, called, returned, Instruction, Failure,
  Executed, ran, raised, Reply, Requested, got, stopped, failed, Batch, Tools, all_run, interrupted,
  catch, fail_by_tool, after_availability, force_availability, answer, run_tools, add_result,
  finish_batch, after_tool, run_call, batch_turn, Outcome, say, emit_text, chunks_of, cancelled,
  finished, empty_response, tool_failed, provider_failed, Run, act, use_reply, turn, run_turns,
  first_turn, note_state, ask, tell, send, has_name, request, final_synthesis_only,
  availability_call, needs_control, needs_language_repair, needs_grounding_repair, needs_text,
}
use magento2_chat_ai.Orchestration.Turns.Rules.{Holds, HoldsFor, run_turns-Holds}
use magento2_chat_ai.Prelude.{
  ℕ, ◌+◌, ◌||◌, ◌≡◌, refl, ap, ◌∙◌, Bool, true, false, inl, inr, Option, none, some, List, [], ◌∷◌,
  ◌++◌, append_assoc, keep, if◌then◌else◌, Bool-cases,
}
use magento2_chat_ai.Text.{Text, filled, filled_or, trim, text_eq, text_eq_iff}

-- The ids of some calls.
abbrev pub ids_of : List ToolCall → List Text
ids_of [] = []
ids_of (c ∷ cs) = c.call_id ∷ ids_of cs

-- What still has to be returned after some messages, where each came in its turn: the results of a
-- message's calls right after it, in the order of the calls.
unfoldable pub waiting : List Text → List Message → Option (List Text)
unfolding text_eq
waiting ids [] = some ids
waiting [] (told i ∷ ms) = waiting [] ms
waiting [] (answered text ∷ ms) = waiting [] ms
waiting [] (called calls ∷ ms) = waiting (ids_of calls) ms
waiting [] (returned call_id content ∷ ms) = none
waiting (id ∷ ids) (returned call_id content ∷ ms) =
    let rest = waiting ids ms in if text_eq id call_id then rest else none
waiting (id ∷ ids) (told i ∷ ms) = none
waiting (id ∷ ids) (answered text ∷ ms) = none
waiting (id ∷ ids) (called calls ∷ ms) = none

took :
    (b : Bool) (o : Option (List Text)) (ids : List Text)
    → (if b then o else none) ≡ some ids
    → (b ≡ true) × (o ≡ some ids)
took true o ids h = (refl, h)
took false o ids h = cc

waiting-append :
    (ids : List Text) (xs ys : List Message) (ids' : List Text)
    → waiting ids xs ≡ some ids'
    → waiting ids (xs ++ ys) ≡ waiting ids' ys
unfolding waiting
waiting-append ids [] ys ids' h =
    let same : ids ≡ ids' = cc in ap (λ (l : List Text). waiting l ys) same
waiting-append [] (told i ∷ xs) ys ids' h = waiting-append [] xs ys ids' h
waiting-append [] (answered text ∷ xs) ys ids' h = waiting-append [] xs ys ids' h
waiting-append [] (called calls ∷ xs) ys ids' h = waiting-append (ids_of calls) xs ys ids' h
waiting-append [] (returned call_id content ∷ xs) ys ids' h = cc
waiting-append (id ∷ ids) (returned call_id content ∷ xs) ys ids' h =
    let (e, k) = took (text_eq id call_id) (waiting ids xs) ids' h in
    rw e (waiting-append ids xs ys ids' k)
waiting-append (id ∷ ids) (told i ∷ xs) ys ids' h = cc
waiting-append (id ∷ ids) (answered text ∷ xs) ys ids' h = cc
waiting-append (id ∷ ids) (called calls ∷ xs) ys ids' h = cc

ids-append : (xs ys : List ToolCall) → ids_of (xs ++ ys) ≡ ids_of xs ++ ids_of ys
ids-append [] ys = refl
ids-append (x ∷ xs) ys = ap (λ (l : List Text). x.call_id ∷ l) (ids-append xs ys)

waiting-returned :
    (id content : Text) (ids : List Text) → waiting (id ∷ ids) (returned id content ∷ []) ≡ some ids
unfolding waiting
waiting-returned id content ids = rw ((text_eq_iff id id).1 refl) refl

-- The results of some calls, and nothing else.
abbrev Answers : List ToolCall → List Message → Type 0
Answers calls ms = (ids : List Text) → waiting (ids_of calls ++ ids) ms ≡ some ids

Answers-add :
    (calls : List ToolCall) (c : ToolCall) (ms : List Message) (content : Text)
    → Answers calls ms
    → Answers (calls ++ c ∷ []) (ms ++ returned c.call_id content ∷ [])
Answers-add calls c ms content h ids =
    ap (λ (l : List Text). waiting (l ++ ids) (ms ++ returned c.call_id content ∷ []))
      (ids-append calls (c ∷ []))
    ∙ ap (λ (l : List Text). waiting l (ms ++ returned c.call_id content ∷ []))
        (append_assoc (ids_of calls) (c.call_id ∷ []) ids)
    ∙ waiting-append (ids_of calls ++ c.call_id ∷ ids) ms (returned c.call_id content ∷ [])
        (c.call_id ∷ ids) (h (c.call_id ∷ ids))
    ∙ waiting-returned c.call_id content ids

Answers-part :
    (calls left : List ToolCall) (ms : List Message)
    → Answers calls ms
    → waiting [] (called (calls ++ left) ∷ ms) ≡ some (ids_of left)
unfolding waiting
Answers-part calls left ms h =
    ap (λ (l : List Text). waiting l ms) (ids-append calls left) ∙ h (ids_of left)

module _ {S P : Type 0} where
  -- Every call of a tool was answered, in its turn.
  abbrev pub IsPaired : Turn S P → Type 0
  IsPaired t = waiting [] t.messages ≡ some []

  -- All that is out of place are results of the last batch that are still to come, if any.
  abbrev pub IsOpen : Turn S P → Type 0
  IsOpen t = (ids : List Text) × (waiting [] t.messages ≡ some ids)

  -- By the outcome: a batch is left half-way by a cancelled run or an error that is thrown alone.
  abbrev pub Leaves : Outcome → Turn S P → Type 0
  Leaves cancelled t = IsOpen t
  Leaves provider_failed t = IsOpen t
  Leaves finished t = IsPaired t
  Leaves empty_response t = IsPaired t
  Leaves tool_failed t = IsPaired t

  abbrev pub KeepsPaired : Next S P → Type 0
  KeepsPaired n = Holds IsPaired IsPaired Leaves n

  abbrev BatchIsPaired : Batch S P → Type 0
  BatchIsPaired b = IsPaired b.turn × Answers b.executed b.results

  abbrev ArePaired : Tools S P → Type 0
  ArePaired ts = HoldsFor IsPaired IsPaired Leaves BatchIsPaired ts

  added :
      (t : Turn S P) (ms : List Message)
      → IsPaired t
      → waiting [] ms ≡ some []
      → waiting [] (t.messages ++ ms) ≡ some []
  added t ms q h = waiting-append [] t.messages ms [] q ∙ h

  told_more : (t : Turn S P) (i : Instruction) → IsPaired t → IsPaired (tell i t)
  unfolding tell waiting
  told_more t i q = added t (told i ∷ []) q refl

  module _ (flow : ToolFlow S P) (run : Run) where
    catch-KeepsPaired : (e : Failure) (t : Turn S P) → IsOpen t → KeepsPaired (catch flow run e t)
    unfolding catch ask send
    catch-KeepsPaired e t q = elim (Bool-cases (run.is_cancelled t.asked || e.is_abort)) [
      | inl h ↦ rw h q
      | inr h ↦ rw h q
    ]

    after-KeepsPaired :
        (c : ToolCall) (r : Executed) (t : Turn S P)
        → IsPaired t
        → KeepsPaired (after_availability flow run c r t)
    unfolding after_availability note_state fail_by_tool send
    after-KeepsPaired c (raised e) t q = catch-KeepsPaired e t ([], q)
    after-KeepsPaired c (ran r) t q =
        elim (Bool-cases (filled (note_state flow run r t).tool_error_message)) [
          | inl h ↦ rw h q
          | inr h ↦ rw h (
              added t
                (called (record c { arguments = r.arguments } ∷ [])
                  ∷ returned c.call_id r.model_context
                  ∷ [])
                q (unfold waiting in waiting-returned c.call_id r.model_context []))
        ]

    say-KeepsPaired : (text : Text) (t : Turn S P) → IsPaired t → KeepsPaired (say flow run text t)
    unfolding say send
    say-KeepsPaired text t q =
        let (e, asked) = emit_text flow run text t.asked in
        elim (Bool-cases e.failure) [
          | inl h ↦ rw h (
              catch-KeepsPaired run.emit_error
                (send (chunks_of e.emitted) (record t { asked = asked })) ([], q))
          | inr h ↦ rw h q
        ]

    answer-KeepsPaired :
        (text : Text) (t : Turn S P) → IsPaired t → KeepsPaired (answer flow run text t)
    unfolding answer send
    answer-KeepsPaired text t q = elim (Bool-cases (needs_control flow run t)) [
      | inl a ↦ rw a (unfold tell in told_more t _ q)
      | inr a ↦ elim (Bool-cases (needs_language_repair flow run text t)) [
        | inl b ↦ rw (a, b) (unfold tell in told_more t _ q)
        | inr b ↦ elim (Bool-cases (needs_grounding_repair flow run text t)) [
          | inl c ↦ rw (a, b, c) (unfold tell in told_more t _ q)
          | inr c ↦ elim (Bool-cases (needs_text flow run text t)) [
            | inl d ↦ rw (a, b, c, d) (unfold tell in told_more t _ q)
            | inr d ↦ elim (Bool-cases (filled text)) [
              | inl h ↦
                  rw (a, b, c, d, h)
                    (say-KeepsPaired text
                      (record t {
                        messages = t.messages ++ answered text ∷ [];
                        has_visible_text = true;
                      })
                      (added t (answered text ∷ []) q (unfold waiting in refl)))
              | inr h ↦ rw (a, b, c, d, h) q
            ]
          ]
        ]
      ]
    ]

    -- Inside a batch nothing but results of its last calls is to come.
    inside :
        (left : List ToolCall) (b : Batch S P)
        → BatchIsPaired b
        → waiting [] (batch_turn flow run left b).messages ≡ some (ids_of left)
    unfolding batch_turn
    inside left b q =
        waiting-append [] b.turn.messages (called (b.executed ++ left) ∷ b.results) [] q.0
        ∙ Answers-part b.executed left b.results q.1

    after_tool-ArePaired :
        (r : Executed) (c : ToolCall) (cs : List ToolCall) (rest : Batch S P → Tools S P)
        (b : Batch S P)
        → ((b' : Batch S P) → BatchIsPaired b' → ArePaired (rest b'))
        → BatchIsPaired b
        → ArePaired (after_tool flow run r c cs rest b)
    unfolding after_tool add_result note_state
    after_tool-ArePaired (raised e) c cs rest b keeps q =
        catch-KeepsPaired e (batch_turn flow run (c ∷ cs) b) (ids_of (c ∷ cs), inside (c ∷ cs) b q)
    after_tool-ArePaired (ran r) c cs rest b keeps q = keeps (add_result flow run c r b) (
      q.0,
      Answers-add b.executed (record c { arguments = r.arguments }) b.results r.model_context q.1,
    )

    run_tools-ArePaired :
        (cs : List ToolCall) (b : Batch S P) → BatchIsPaired b → ArePaired (run_tools flow run cs b)
    unfolding run_tools ask run_call
    run_tools-ArePaired [] b q = q
    run_tools-ArePaired (c ∷ cs) b q = elim (Bool-cases (run.is_cancelled b.turn.asked)) [
      | inl h ↦ rw h (ids_of (c ∷ cs), inside (c ∷ cs) b q)
      | inr h ↦ rw h (
          after_tool-ArePaired (flow.execute c b.turn.flow_state).0 c cs (run_tools flow run cs)
            (run_call flow run c b) (λ b'. run_tools-ArePaired cs b') q)
    ]

    finish-KeepsPaired : (ts : Tools S P) → ArePaired ts → KeepsPaired (finish_batch flow run ts)
    unfolding finish_batch fail_by_tool send
    finish-KeepsPaired (interrupted n) s = s
    finish-KeepsPaired (all_run b) q = elim (Bool-cases b.stops) [
      | inl s ↦ rw s (inside [] b q)
      | inr s ↦ elim (Bool-cases (filled b.turn.tool_error_message)) [
        | inl e ↦ rw (s, e) (inside [] b q)
        | inr e ↦ rw (s, e) (inside [] b q)
      ]
    ]

    module _ (print : ℕ → Text) where
      act-KeepsPaired :
          (i : ℕ) (cs : List ToolCall) (content : Text) (t : Turn S P)
          → IsPaired t
          → KeepsPaired (act flow run print i cs content t)
      unfolding act force_availability
      act-KeepsPaired i [] content t q =
          elim (Bool-cases (flow.should_force_product_availability t.flow_state)) [
            | inl h ↦
                let c = availability_call flow run print i in
                rw h (
                  after-KeepsPaired c (flow.execute c t.flow_state).0
                    (record t { flow_state = (flow.execute c t.flow_state).1 }) q)
            | inr h ↦ rw h (answer-KeepsPaired (trim content) t q)
          ]
      act-KeepsPaired i (c ∷ cs) content t q =
          let b : Batch S P = record { turn = t; executed = []; results = []; stops = false } in
          finish-KeepsPaired (run_tools flow run (c ∷ cs) b)
            (run_tools-ArePaired (c ∷ cs) b (q, λ ids. unfold waiting in refl))

      use_reply-KeepsPaired :
          (i : ℕ) (final : Bool) (r : Requested) (t : Turn S P)
          → IsPaired t
          → KeepsPaired (use_reply flow run print i final r t)
      unfolding use_reply ask
      use_reply-KeepsPaired i final stopped t q = ([], q)
      use_reply-KeepsPaired i final (failed e) t q = catch-KeepsPaired e t ([], q)
      use_reply-KeepsPaired i final (got m reason) t q =
          elim (Bool-cases (run.is_cancelled t.asked)) [
            | inl h ↦ rw h ([], q)
            | inr h ↦ rw h (
                act-KeepsPaired i (if final then [] else keep has_name m.tool_calls) m.content
                  (ask (record t { finish_reason = filled_or reason t.finish_reason })) q)
          ]

      module _ (provider : ℕ → ℕ → Reply) (max_tool_rounds : ℕ) where
        turn-KeepsPaired :
            (i : ℕ) (t : Turn S P)
            → IsPaired t
            → KeepsPaired (turn flow run print provider max_tool_rounds i t)
        unfolding turn ask
        turn-KeepsPaired i t q = elim (Bool-cases (run.is_cancelled t.asked)) [
          | inl h ↦ rw h ([], q)
          | inr h ↦ rw h (
              use_reply-KeepsPaired i
                (final_synthesis_only flow run print provider max_tool_rounds i t)
                (request (provider i 0) (provider i 1)) (ask t) q)
        ]

-- After any number of turns the messages that the next request sends are in order: right after each
-- message that calls tools stand the results of those calls, one for each with its id and in their
-- order, and no result stands anywhere else. So they are when the loop is left and when a tool's error
-- ends the run; where it is cancelled or an error is thrown, the last results may be missing.
pub run_turns-KeepsPaired :
    {S P : Type 0} (flow : ToolFlow S P) (run : Run) (print : ℕ → Text) (provider : ℕ → ℕ → Reply)
    (max_tool_rounds turns : ℕ) (s : S)
    → KeepsPaired (run_turns flow run print provider max_tool_rounds turns 0 (first_turn s))
run_turns-KeepsPaired flow run print provider max_tool_rounds turns s =
    run_turns-Holds (λ i. IsPaired) IsPaired Leaves flow run print provider max_tool_rounds
      (turn-KeepsPaired flow run print provider max_tool_rounds) turns 0 (turns + 0) (first_turn s)
      refl (unfold waiting in refl)
