-- ===== src/Orchestration/OpenAiStream.antt =====
-- `readOpenAiStream` of openai-compatible-orchestrator.js: server-sent events that come in chunks of
-- any size. `JSON.parse` and the answers of `isCancelled`, numbered in the order of the calls, are
-- arguments; the chunks are what the decoder gives.
pub mod Chunks
use magento2_chat_ai.Orchestration.EventStream.{read_chunks}
use magento2_chat_ai.Prelude.{
  ℕ, suc, ◌+◌, Bool, true, false, ◌&&◌, ◌||◌, not, Option, none, some, List, [], ◌∷◌, ◌++◌, length,
  drop, reverse, ◌==◌, if◌then◌else◌, or_else,
}
use magento2_chat_ai.Text.{cons_first, Text, codes, starts_with, trim}

-- `event.split('\n')`.
unfoldable pub split_lines : Text → List Text
unfolding cons_first
split_lines [] = [] ∷ []
split_lines (c ∷ s) = let rest = split_lines s in if c == 10 then [] ∷ rest else cons_first c rest

unfoldable pub is_text : Text → Text → Bool
unfolding starts_with
is_text s t = length s == length t && starts_with s t

-- One parsed chunk of the provider: `usage`, `choices[0].finish_reason` and `choices[0].delta`.
pub record Chunk (U D : Type 0) : Type 0 where
  pub usage : Option U
  pub finish_reason : Text
  pub delta : D

-- What was read: the deltas that were handed over, in order.
pub record Progress (U D : Type 0) : Type 0 where
  pub finish_reason : Text
  pub usage : Option U
  pub deltas : List D
  pub stream_complete : Bool

abbrev pub no_progress : {U D : Type 0} → Progress U D
no_progress = record { finish_reason = []; usage = none; deltas = []; stream_complete = false }

-- `null` and a missing usage leave the one before.
unfoldable pub later_usage : {U : Type 0} → Option U → Option U → Option U
later_usage none old = old
later_usage (some u) old = some u

module _ {U D : Type 0} (parse : Text → Option (Chunk U D)) where
  -- A payload that does not parse is logged and passed over.
  unfoldable pub read_parsed : Option (Chunk U D) → Progress U D → Progress U D
  unfolding later_usage
  read_parsed none p = p
  read_parsed (some chunk) p = record {
    finish_reason =
        if length chunk.finish_reason == 0 then p.finish_reason else chunk.finish_reason;
    usage = later_usage chunk.usage p.usage;
    deltas = p.deltas ++ chunk.delta ∷ [];
    stream_complete = p.stream_complete;
  }

  -- `for (const line of lines)`, where the marker of the end leaves the lines after it unread.
  unfoldable pub read_lines : List Text → Progress U D → Progress U D
  unfolding trim starts_with is_text read_parsed
  read_lines [] p = p
  read_lines (l ∷ ls) p =
      let line = trim l in
      let payload = trim (drop 5 line) in
      let skipped = read_lines ls p in
      let parsed = read_lines ls (read_parsed (parse payload) p) in
      if not (starts_with (codes "data:") line) || length payload == 0
      then skipped
      else if is_text (codes "[DONE]") payload
      then record p { stream_complete = true }
      else parsed

  unfoldable pub read_event : Text → Progress U D → Progress U D
  unfolding split_lines read_lines
  read_event event = read_lines (split_lines event)

  unfoldable pub read_open_ai_stream : (ℕ → Bool) → List Text → Option (Progress U D)
  unfolding read_chunks read_event
  read_open_ai_stream is_cancelled chunks =
      read_chunks read_event (λ p. p.stream_complete) (λ p. false) is_cancelled chunks [] 0
        no_progress
