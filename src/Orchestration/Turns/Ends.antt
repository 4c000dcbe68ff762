-- ===== src/Orchestration/Turns/Ends.antt =====
-- openai-compatible-orchestrator.js: what is sent until an answer ends, one way or another.
use magento2_chat_ai.Orchestration.Turns.{
  Turn, Next, Frame, activity_completed, presented, error_frame, done, tool_error, provider_error,
  response_empty, Outcome, cancelled, finished, empty_response, tool_failed, provider_failed, Tools,
  Run, chunks_of, code_points, turn,
}
use magento2_chat_ai.Conversation.ChunkEmitter.Flow.{joined}
use magento2_chat_ai.Orchestration.Turns.Emission.{AreFront}
use magento2_chat_ai.Orchestration.Turns.Rules.{Holds, HoldsFor}
use magento2_chat_ai.Prelude.{ℕ, ◌≡◌, ◌<◌, true, false, ◌⊎◌, Option, List, [], ◌∷◌, ◌++◌}
use magento2_chat_ai.Text.{Text, filled}

module _ {S P : Type 0} where
  -- Nothing was said yet.
  abbrev pub IsQuiet : Turn S P → Type 0
  IsQuiet t = (t.frames ≡ []) × (t.has_visible_text ≡ false)

  -- The frames are chunks of a front part of one text, which may be empty, and then others.
  abbrev pub Spoke : List (Frame P) → Turn S P → Type 0
  Spoke others t =
      (text : Text) × (chunks : List (List ℕ)) × AreFront (code_points text) chunks
      × (t.frames ≡ chunks_of chunks ++ others)

  -- What was sent in all, by the outcome.
  abbrev pub Heard : Outcome → Turn S P → Type 0
  Heard cancelled t = Spoke [] t
  Heard finished t =
      (text : Text) × (chunks : List (List ℕ)) × (products : Option P) × (reason : Text) × (filled
          text
        ≡ true)
      × (joined chunks ≡ code_points text)
      × (t.frames ≡ chunks_of chunks ++ activity_completed ∷ presented products ∷ done reason ∷ [])
  Heard empty_response t = t.frames ≡ activity_completed ∷ error_frame response_empty ∷ []
  Heard tool_failed t =
      (message : Text) × ((filled message ≡ true)
        × (t.frames ≡ activity_completed ∷ error_frame (tool_error message) ∷ []))
  Heard provider_failed t =
      (message : Text) × Spoke (activity_completed ∷ error_frame (provider_error message) ∷ []) t

  abbrev pub HeardOf : Outcome × Turn S P → Type 0
  HeardOf (outcome, t) = Heard outcome t

  -- A text was said in full, or the run was cancelled at an earlier question.
  abbrev HasAnswered : Run → Turn S P → Type 0
  HasAnswered run t =
      (t.has_visible_text ≡ true)
      × ((text : Text) × (chunks : List (List ℕ)) × (filled text ≡ true)
          × AreFront (code_points text) chunks
          × ((joined chunks ≡ code_points text)
              ⊎ ((m : ℕ) × (m < t.asked) × (run.is_cancelled m ≡ true)))
          × (t.frames ≡ chunks_of chunks))

  abbrev MayBreak : Run → Turn S P → Type 0
  MayBreak run t = IsQuiet t ⊎ HasAnswered run t

  abbrev IsSound : Run → Next S P → Type 0
  IsSound run n = Holds IsQuiet (MayBreak run) Heard n

  abbrev AreSound : Run → Tools S P → Type 0
  AreSound run ts = HoldsFor IsQuiet (MayBreak run) Heard (λ b. IsQuiet b.turn) ts
