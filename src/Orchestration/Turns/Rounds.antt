-- ===== src/Orchestration/Turns/Rounds.antt =====
-- openai-compatible-orchestrator.js and tool-rounds.js: how many turns an answer takes.
pub mod Bound
use magento2_chat_ai.Orchestration.Turns.{
  ToolCall, ToolFlow, Turn, Next, go_on, leave, ended, Message, told, answered, called, returned,
  Instruction, language_repair, grounding_repair, empty_recovery, Outcome, Failure, Executed, ran,
  raised, ToolResult, Reply, Requested, got, stopped, failed, Batch, Tools, all_run, interrupted,
  catch, fail_by_tool, after_availability, force_availability, answer, run_tools, add_result,
  finish_batch, after_tool, run_call, batch_turn, Run, say, emit_text, chunks_of, act, use_reply,
  turn, run_turns, conclude, close, stream_chat_response, first_turn, note_state, ask, tell, send,
  has_name, request, final_synthesis_only, availability_call, max_catalog_control_recoveries,
  needs_control, is_forced, is_final_synthesis_turn, control_is_pending, needs_language_repair,
  needs_grounding_repair, needs_text,
}
use magento2_chat_ai.Orchestration.Turns.Rules.{Holds, HoldsFor, run_turns-Holds}
use magento2_chat_ai.Prelude.{
  ℕ, zero, suc, ◌+◌, ◌≤◌, ◌<◌, arith, ◌||◌, ◌≡◌, subst, refl, sym, ap, ◌∙◌, Bool, true, false, not,
  ◌⊎◌, inl, inr, Option, none, some, List, [], ◌∷◌, ◌++◌, append-nil, append_assoc, keep,
  if◌then◌else◌, Bool-cases,
}
use magento2_chat_ai.Text.{Text, codes, filled, filled_or, trim, text_eq, text_eq_iff}

-- The messages that call tools.
abbrev pub batches : List Message → ℕ
batches [] = 0
batches (told i ∷ ms) = batches ms
batches (answered text ∷ ms) = batches ms
batches (called calls ∷ ms) = suc (batches ms)
batches (returned call_id content ∷ ms) = batches ms

batches-append : (xs ys : List Message) → batches (xs ++ ys) ≡ batches xs + batches ys
batches-append [] ys = omega arith
batches-append (told i ∷ xs) ys = batches-append xs ys
batches-append (answered text ∷ xs) ys = batches-append xs ys
batches-append (called calls ∷ xs) ys = omega (batches-append xs ys, arith)
batches-append (returned call_id content ∷ xs) ys = batches-append xs ys

module _ {S P : Type 0} (flow : ToolFlow S P) (run : Run) (text : Text) (t : Turn S P) where
  language_first : needs_language_repair flow run text t ≡ true → t.language_repair_attempts < 1
  unfolding needs_language_repair
  language_first h = ground arith

  grounding_first :
      needs_grounding_repair flow run text t ≡ true → t.catalog_grounding_repair_attempts < 1
  unfolding needs_grounding_repair
  grounding_first h = ground arith

  text_first : needs_text flow run text t ≡ true → t.empty_response_recovery_attempts < 1
  unfolding needs_text
  text_first h = ground arith

module _ {S P : Type 0} (max_tool_rounds : ℕ) where
  -- Before the turn of this number: each turn before it called tools, or asked for one of three
  -- repairs, none of them a second time.
  pub record InRounds (i : ℕ) (t : Turn S P) : Type 0 where
    pub turns_eq :
        batches t.messages
          + t.language_repair_attempts
          + t.catalog_grounding_repair_attempts
          + t.empty_response_recovery_attempts
        ≡ i
    pub batches_le : batches t.messages ≤ max_tool_rounds
    pub language_le : t.language_repair_attempts ≤ 1
    pub grounding_le : t.catalog_grounding_repair_attempts ≤ 1
    pub empty_le : t.empty_response_recovery_attempts ≤ 1

  abbrev pub IsBounded : Turn S P → Type 0
  IsBounded t = batches t.messages ≤ max_tool_rounds

  abbrev pub KeepsRounds : ℕ → Next S P → Type 0
  KeepsRounds i n = Holds (InRounds (suc i)) IsBounded (λ outcome. IsBounded) n

  abbrev pub BatchInRounds : ℕ → Batch S P → Type 0
  BatchInRounds i b = InRounds i b.turn × (batches b.results ≡ 0) × (i < max_tool_rounds)

  abbrev pub AreInRounds : ℕ → Tools S P → Type 0
  AreInRounds i ts =
      HoldsFor (InRounds (suc i)) IsBounded (λ outcome. IsBounded) (BatchInRounds i) ts

  module _ (flow : ToolFlow S P) (run : Run) where
    pub catch-KeepsRounds :
        (i : ℕ) (e : Failure) (t : Turn S P) → IsBounded t → KeepsRounds i (catch flow run e t)
    unfolding catch ask send
    catch-KeepsRounds i e t q = elim (Bool-cases (run.is_cancelled t.asked || e.is_abort)) [
      | inl h ↦ rw h q
      | inr h ↦ rw h q
    ]

    say-KeepsRounds :
        (i : ℕ) (text : Text) (t : Turn S P) → IsBounded t → KeepsRounds i (say flow run text t)
    unfolding say send
    say-KeepsRounds i text t q =
        let (e, asked) = emit_text flow run text t.asked in
        elim (Bool-cases e.failure) [
          | inl h ↦ rw h (
              catch-KeepsRounds i run.emit_error
                (send (chunks_of e.emitted) (record t { asked = asked })) q)
          | inr h ↦ rw h q
        ]

    pub answer-KeepsRounds :
        (i : ℕ) (text : Text) (t : Turn S P)
        → needs_control flow run t ≡ false
        → InRounds i t
        → KeepsRounds i (answer flow run text t)
    unfolding answer send tell
    answer-KeepsRounds i text t a q = elim (Bool-cases (needs_language_repair flow run text t)) [
      | inl b ↦
          rw (a, b)
            (record {
              turns_eq =
                  omega (batches-append t.messages (told language_repair ∷ []), q.turns_eq, arith);
              batches_le =
                  omega
                    (batches-append t.messages (told language_repair ∷ []), q.batches_le, arith);
              language_le = omega (language_first flow run text t b, arith);
              grounding_le = q.grounding_le;
              empty_le = q.empty_le;
            })
      | inr b ↦ elim (Bool-cases (needs_grounding_repair flow run text t)) [
        | inl c ↦
            rw (a, b, c)
              (record {
                turns_eq =
                    omega
                      (batches-append t.messages (told grounding_repair ∷ []), q.turns_eq, arith);
                batches_le =
                    omega
                      (batches-append t.messages (told grounding_repair ∷ []), q.batches_le, arith);
                language_le = q.language_le;
                grounding_le = omega (grounding_first flow run text t c, arith);
                empty_le = q.empty_le;
              })
        | inr c ↦ elim (Bool-cases (needs_text flow run text t)) [
          | inl d ↦
              rw (a, b, c, d)
                (record {
                  turns_eq =
                      omega
                        (batches-append t.messages (told empty_recovery ∷ []), q.turns_eq, arith);
                  batches_le =
                      omega
                        (batches-append t.messages (told empty_recovery ∷ []), q.batches_le, arith);
                  language_le = q.language_le;
                  grounding_le = q.grounding_le;
                  empty_le = omega (text_first flow run text t d, arith);
                })
          | inr d ↦ elim (Bool-cases (filled text)) [
            | inl h ↦
                rw (a, b, c, d, h)
                  (say-KeepsRounds i text
                    (record t {
                      messages = t.messages ++ answered text ∷ [];
                      has_visible_text = true;
                    })
                    (omega (batches-append t.messages (answered text ∷ []), q.batches_le, arith)))
            | inr h ↦ rw (a, b, c, d, h) q.batches_le
          ]
        ]
      ]
    ]

    -- Inside a batch, which is one of the permitted rounds.
    inside :
        (i : ℕ) (left : List ToolCall) (b : Batch S P)
        → BatchInRounds i b
        → InRounds (suc i) (batch_turn flow run left b)
    unfolding batch_turn
    inside i left b q =
        let more = batches-append b.turn.messages (called (b.executed ++ left) ∷ b.results) in
        record {
          turns_eq = omega (more, q.0.turns_eq, q.1, arith);
          batches_le = omega (more, q.0.turns_eq, q.1, q.2, arith);
          language_le = q.0.language_le;
          grounding_le = q.0.grounding_le;
          empty_le = q.0.empty_le;
        }

    after_tool-AreInRounds :
        (i : ℕ) (r : Executed) (c : ToolCall) (cs : List ToolCall) (rest : Batch S P → Tools S P)
        (b : Batch S P)
        → ((b' : Batch S P) → BatchInRounds i b' → AreInRounds i (rest b'))
        → BatchInRounds i b
        → AreInRounds i (after_tool flow run r c cs rest b)
    unfolding after_tool add_result note_state
    after_tool-AreInRounds i (raised e) c cs rest b keeps q =
        catch-KeepsRounds i e (batch_turn flow run (c ∷ cs) b) (inside i (c ∷ cs) b q).batches_le
    after_tool-AreInRounds i (ran r) c cs rest b keeps q = keeps (add_result flow run c r b) (
      record {
        turns_eq = q.0.turns_eq;
        batches_le = q.0.batches_le;
        language_le = q.0.language_le;
        grounding_le = q.0.grounding_le;
        empty_le = q.0.empty_le;
      },
      omega (batches-append b.results (returned c.call_id r.model_context ∷ []), q.1, arith),
      q.2,
    )

    pub run_tools-AreInRounds :
        (i : ℕ) (cs : List ToolCall) (b : Batch S P)
        → BatchInRounds i b
        → AreInRounds i (run_tools flow run cs b)
    unfolding run_tools ask run_call
    run_tools-AreInRounds i [] b q = q
    run_tools-AreInRounds i (c ∷ cs) b q = elim (Bool-cases (run.is_cancelled b.turn.asked)) [
      | inl h ↦ rw h (inside i (c ∷ cs) b q).batches_le
      | inr h ↦ rw h (
          after_tool-AreInRounds i (flow.execute c b.turn.flow_state).0 c cs (run_tools flow run cs)
            (run_call flow run c b) (λ b'. run_tools-AreInRounds i cs b')
            (
              record {
                turns_eq = q.0.turns_eq;
                batches_le = q.0.batches_le;
                language_le = q.0.language_le;
                grounding_le = q.0.grounding_le;
                empty_le = q.0.empty_le;
              },
              q.1,
              q.2,
            ))
    ]

    pub finish-KeepsRounds :
        (i : ℕ) (ts : Tools S P) → AreInRounds i ts → KeepsRounds i (finish_batch flow run ts)
    unfolding finish_batch fail_by_tool send
    finish-KeepsRounds i (interrupted n) s = s
    finish-KeepsRounds i (all_run b) q = elim (Bool-cases b.stops) [
      | inl s ↦ rw s (inside i [] b q).batches_le
      | inr s ↦ elim (Bool-cases (filled b.turn.tool_error_message)) [
        | inl e ↦ rw (s, e) (inside i [] b q).batches_le
        | inr e ↦ rw (s, e) (inside i [] b q)
      ]
    ]
