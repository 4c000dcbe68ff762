-- ===== src/Orchestration/Turns.antt =====
-- `streamChatResponse` of openai-compatible-orchestrator.js: the turns of one answer. The tools of
-- `createProviderNeutralToolFlow` are an interface; what a request gives, once its stream is read, and
-- the answers of `isCancelled`, numbered in the order of the calls, are arguments; of the frames only a
-- chunk may fail to be sent.
mod State
pub mod Rules
unfoldable pub use State.*
pub mod Paired
pub mod Rounds
pub mod Emission
pub mod Ends
use magento2_chat_ai.Conversation.ChunkEmitter.{Emitter, created, push, drain, pump}
use magento2_chat_ai.Prelude.{
  ℕ, zero, suc, ◌+◌, Bool, true, false, ◌&&◌, ◌||◌, not, Option, none, some, List, [], ◌∷◌, ◌++◌,
  keep, length, ltb, leb, if◌then◌else◌,
}
use magento2_chat_ai.Text.{Text, codes, filled, filled_or, trim}

unfoldable pub ask : {S P : Type 0} → Turn S P → Turn S P
ask t = record t { asked = suc t.asked }

unfoldable pub tell : {S P : Type 0} → Instruction → Turn S P → Turn S P
tell i t = record t { messages = t.messages ++ told i ∷ [] }

unfoldable pub send : {S P : Type 0} → List (Frame P) → Turn S P → Turn S P
send fs t = record t { frames = t.frames ++ fs }

unfoldable pub fail_by_tool : {S P : Type 0} → Turn S P → Next S P
unfolding send
fail_by_tool t =
    ended tool_failed
      (send (activity_completed ∷ error_frame (tool_error t.tool_error_message) ∷ []) t)

module _ {S P : Type 0} (flow : ToolFlow S P) (run : Run) where
  -- The `catch` of the whole.
  unfoldable pub catch : Failure → Turn S P → Next S P
  unfolding ask send
  catch e t =
      if run.is_cancelled t.asked || e.is_abort
      then ended cancelled (ask t)
      else ended provider_failed
          (send (activity_completed ∷ error_frame (provider_error e.message) ∷ []) (ask t))

  -- What is read of `getState()` once a tool has run.
  unfoldable pub note_state : ToolResult → Turn S P → Turn S P
  unfolding filled_or
  note_state r t = record t {
    pending_product_presentation = flow.pending_product_presentation t.flow_state;
    tool_error_message =
        filled_or (flow.tool_error_message t.flow_state) (filled_or r.error t.tool_error_message);
  }

  -- The availability read that the gateway makes itself.
  unfoldable pub after_availability : ToolCall → Executed → Turn S P → Next S P
  unfolding catch note_state filled fail_by_tool
  after_availability c (raised e) t = catch e t
  after_availability c (ran r) t =
      let t' = note_state r t in
      if filled t'.tool_error_message
      then fail_by_tool t'
      else go_on (record t' {
        messages =
            t.messages
            ++ called (record c { arguments = r.arguments } ∷ [])
              ∷ returned c.call_id r.model_context
              ∷ [];
        has_executed_tool_batch = true;
        force_final_synthesis = true;
      })

  unfoldable pub force_availability : ToolCall → Turn S P → Next S P
  unfolding after_availability
  force_availability c t =
      let (result, s) = flow.execute c t.flow_state in
      after_availability c result (record t { flow_state = s })

  unfoldable pub control_is_pending : S → Bool
  control_is_pending s =
      flow.should_force_catalog_need_resolution s
      || flow.should_force_category_discovery s
      || flow.should_force_product_search s

  unfoldable pub needs_control : Turn S P → Bool
  unfolding control_is_pending
  needs_control t =
      control_is_pending t.flow_state
      && ltb t.catalog_control_recovery_attempts max_catalog_control_recoveries

  unfoldable pub needs_language_repair : Text → Turn S P → Bool
  unfolding filled
  needs_language_repair text t =
      filled text
      && not (flow.accepts_language text t.flow_state)
      && ltb t.language_repair_attempts 1

  unfoldable pub needs_grounding_repair : Text → Turn S P → Bool
  unfolding filled
  needs_grounding_repair text t =
      filled text
      && not (flow.accepts_catalog_grounding text t.flow_state)
      && ltb t.catalog_grounding_repair_attempts 1

  unfoldable pub needs_text : Text → Turn S P → Bool
  unfolding filled
  needs_text text t = not (filled text) && ltb t.empty_response_recovery_attempts 1

  -- The timer events that `await smoothEmitter.drain()` waits for, and the questions asked by then.
  unfoldable pub await_drain : ℕ → ℕ → Emitter → Emitter × ℕ
  unfolding pump
  await_drain zero asked e = (e, asked)
  await_drain (suc left) asked e =
      let rest =
        await_drain left (suc asked)
          (pump smooth_config (run.is_cancelled asked) (run.emit_throws asked) e) in
      if e.timer then rest else (e, asked)

  -- The emitter once the text is pushed and the drain has settled. What runs without waiting in
  -- between sees one answer of `isCancelled`.
  unfoldable pub emit_text : Text → ℕ → Emitter × ℕ
  unfolding await_drain push drain code_points
  emit_text text asked =
      let pushed =
        push smooth_config (run.is_cancelled asked) (run.emit_throws asked) (code_points text)
          created in
      await_drain (suc (length (code_points text))) (suc asked)
        (drain (run.is_cancelled asked) pushed).1

  -- `push`, then `drain`, which rejects with what `emit` has thrown.
  unfoldable pub say : Text → Turn S P → Next S P
  unfolding emit_text send catch
  say text t =
      let (e, asked) = emit_text text t.asked in
      let t' : Turn S P = send (chunks_of e.emitted) (record t { asked = asked }) in
      if e.failure then catch run.emit_error t' else leave t'

  -- The end of a turn without tool calls, on its trimmed text.
  unfoldable pub answer : Text → Turn S P → Next S P
  unfolding needs_control needs_language_repair needs_grounding_repair needs_text filled tell say
  answer text t =
      if needs_control t
      then go_on (
          tell catalog_control (record t {
            catalog_control_recovery_attempts = suc t.catalog_control_recovery_attempts;
          }))
      else if needs_language_repair text t
      then go_on (
          tell language_repair (record t {
            language_repair_attempts = suc t.language_repair_attempts;
            force_final_synthesis = true;
          }))
      else if needs_grounding_repair text t
      then go_on (
          tell grounding_repair (record t {
            catalog_grounding_repair_attempts = suc t.catalog_grounding_repair_attempts;
            force_final_synthesis = true;
          }))
      else if needs_text text t
      then go_on (
          tell empty_recovery (record t {
            empty_response_recovery_attempts = suc t.empty_response_recovery_attempts;
            force_final_synthesis = t.has_executed_tool_batch;
          }))
      else if filled text
      then say text
          (record t { messages = t.messages ++ answered text ∷ []; has_visible_text = true })
      else leave t

  unfoldable pub add_result : ToolCall → ToolResult → Batch S P → Batch S P
  unfolding note_state
  add_result c r b = record b {
    turn = note_state r b.turn;
    executed = b.executed ++ record c { arguments = r.arguments } ∷ [];
    results = b.results ++ returned c.call_id r.model_context ∷ [];
    stops = b.stops || r.stop_after_tool_batch;
  }

  -- The turn inside a batch, whose calls of `left` have still to run: the message of the calls was
  -- pushed before the first of them, and shares them, so that those that ran have their new arguments.
  unfoldable pub batch_turn : List ToolCall → Batch S P → Turn S P
  batch_turn left b = record b.turn {
    messages = b.turn.messages ++ called (b.executed ++ left) ∷ b.results;
    has_executed_tool_batch = true;
  }

  unfoldable pub after_tool :
      Executed → ToolCall → List ToolCall → (Batch S P → Tools S P) → Batch S P → Tools S P
  unfolding catch add_result batch_turn
  after_tool (raised e) c cs rest b = interrupted (catch e (batch_turn (c ∷ cs) b))
  after_tool (ran r) c cs rest b = rest (add_result c r b)

  -- The flow, once it has run a call.
  unfoldable pub run_call : ToolCall → Batch S P → Batch S P
  unfolding ask
  run_call c b = record b {
    turn = record (ask b.turn) { flow_state = (flow.execute c b.turn.flow_state).1 };
  }

  -- `for (const toolCall of toolCalls)`.
  unfoldable pub run_tools : List ToolCall → Batch S P → Tools S P
  unfolding ask after_tool run_call batch_turn
  run_tools [] b = all_run b
  run_tools (c ∷ cs) b =
      if run.is_cancelled b.turn.asked
      then interrupted (ended cancelled (ask (batch_turn (c ∷ cs) b)))
      else after_tool (flow.execute c b.turn.flow_state).0 c cs (run_tools cs) (run_call c b)

  unfoldable pub finish_batch : Tools S P → Next S P
  unfolding filled fail_by_tool batch_turn
  finish_batch (interrupted n) = n
  finish_batch (all_run b) =
      if b.stops
      then leave (batch_turn [] b)
      else if filled b.turn.tool_error_message
      then fail_by_tool (batch_turn [] b)
      else go_on (batch_turn [] b)

  module _ (print : ℕ → Text) where
    unfoldable pub availability_call : ℕ → ToolCall
    availability_call iteration = record {
      call_id = codes "gateway-availability-" ++ print iteration;
      name = codes "getProductAvailability";
      arguments = codes "{}";
    }

    -- What a turn does with its tool calls, or with its text where it has none.
    unfoldable pub act : ℕ → List ToolCall → Text → Turn S P → Next S P
    unfolding force_availability availability_call answer trim run_tools finish_batch
    act iteration [] content t =
        if flow.should_force_product_availability t.flow_state
        then force_availability (availability_call iteration) t
        else answer (trim content) t
    act iteration (c ∷ cs) content t =
        finish_batch
          (run_tools (c ∷ cs) (record { turn = t; executed = []; results = []; stops = false }))

    unfoldable pub use_reply : ℕ → Bool → Requested → Turn S P → Next S P
    unfolding catch ask filled_or has_name act
    use_reply iteration final stopped t = ended cancelled t
    use_reply iteration final (failed e) t = catch e t
    use_reply iteration final (got m reason) t =
        let t' = ask (record t { finish_reason = filled_or reason t.finish_reason }) in
        if run.is_cancelled t.asked
        then ended cancelled t'
        else act iteration (if final then [] else keep has_name m.tool_calls) m.content t'

    module _ (provider : ℕ → ℕ → Reply) (max_tool_rounds : ℕ) where
      -- A tool that this turn has to call.
      unfoldable pub is_forced : S → Bool
      is_forced s =
          flow.should_force_product_availability s
          || flow.should_force_catalog_need_resolution s
          || flow.should_force_catalog_anchor_resolution s
          || flow.should_force_category_discovery s
          || flow.should_force_product_search s

      unfoldable pub final_synthesis_only : ℕ → Turn S P → Bool
      unfolding is_forced is_final_synthesis_turn
      final_synthesis_only iteration t =
          not (is_forced t.flow_state)
          && (t.force_final_synthesis || is_final_synthesis_turn iteration max_tool_rounds false)

      unfoldable pub turn : ℕ → Turn S P → Next S P
      unfolding ask use_reply final_synthesis_only request
      turn iteration t =
          if run.is_cancelled t.asked
          then ended cancelled (ask t)
          else use_reply iteration (final_synthesis_only iteration t)
              (request (provider iteration 0) (provider iteration 1)) (ask t)

      -- The loop, for as many turns as it has left.
      unfoldable pub run_turns : ℕ → ℕ → Turn S P → Next S P
      unfolding turn
      run_turns zero iteration t = go_on t
      run_turns (suc left) iteration t = elim (turn iteration t) [
        | go_on t' ↦ run_turns left (suc iteration) t'
        | leave t' ↦ leave t'
        | ended outcome t' ↦ ended outcome t'
      ]

      -- What follows the loop.
      unfoldable pub conclude : Turn S P → Outcome × Turn S P
      unfolding ask send filled_or
      conclude t =
          if run.is_cancelled t.asked
          then (cancelled, ask t)
          else if not t.has_visible_text
          then (empty_response, send (activity_completed ∷ error_frame response_empty ∷ []) (ask t))
          else (
            finished,
            send
                (activity_completed
                  ∷ presented t.pending_product_presentation
                  ∷ done (filled_or t.finish_reason (codes "stop"))
                  ∷ [])
                (ask t),
          )

      unfoldable pub close : Next S P → Outcome × Turn S P
      unfolding conclude
      close (go_on t) = conclude t
      close (leave t) = conclude t
      close (ended outcome t) = (outcome, t)

      unfoldable pub stream_chat_response : S → Outcome × Turn S P
      unfolding close run_turns
      stream_chat_response s =
          close (
            run_turns (suc (max_tool_rounds + 3 + max_catalog_control_recoveries)) 0 (first_turn s))
