-- ===== src/Orchestration/EventStream.antt =====
-- openai-compatible-orchestrator.js: the reading of server-sent events that come in chunks of any size,
-- which `readOpenAiStream` and `readOpenAiResponsesStream` share. What an event does is an argument,
-- and so are the answers of `isCancelled`, numbered in the order of the calls; the chunks are what the
-- decoder gives.
pub mod Pieces
pub mod Chunks
use magento2_chat_ai.Prelude.{
  ℕ, suc, ◌+◌, Bool, true, false, ◌&&◌, Option, none, some, List, [], ◌∷◌, ◌++◌, ◌==◌,
  if◌then◌else◌,
}
use magento2_chat_ai.Text.{cons_first, Text}

-- `buffer.split('\n\n')`: the pieces, of which there is always one.
unfoldable pub split_events : Text → List Text
unfolding cons_first
split_events [] = [] ∷ []
split_events (c ∷ []) = (c ∷ []) ∷ []
split_events (c ∷ d ∷ s) = elim (c == 10 && d == 10) [
  | true ↦ [] ∷ split_events s
  | false ↦ cons_first c (split_events (d ∷ s))
]

-- `events.pop()`: the last piece, and those before it.
unfoldable pub last_piece : List Text → Text
last_piece [] = []
last_piece (p ∷ []) = p
last_piece (p ∷ q ∷ ps) = last_piece (q ∷ ps)

unfoldable pub but_last : List Text → List Text
but_last [] = []
but_last (p ∷ []) = []
but_last (p ∷ q ∷ ps) = p ∷ but_last (q ∷ ps)

-- `is_broken` is a `break` that leaves the other events of a chunk unread.
module _ {A : Type 0} (read_event : Text → A → A) (is_complete is_broken : A → Bool)
    (is_cancelled : ℕ → Bool) where
  -- `for (const event of events)`: `none` where the run was cancelled, and the calls so far.
  unfoldable pub read_events : List Text → ℕ → A → Option A × ℕ
  read_events [] asked p = (some p, asked)
  read_events (e ∷ es) asked p =
      let rest = read_events es (suc asked) (read_event e p) in
      if is_broken p
      then (some p, asked)
      else if is_cancelled asked
      then (none, suc asked)
      else rest

  -- `while (!streamComplete)`, over the chunks until the reader is done.
  unfoldable pub read_chunks : List Text → Text → ℕ → A → Option A
  unfolding split_events last_piece but_last read_events
  read_chunks [] buffer asked p =
      if is_complete p then some p else if is_cancelled asked then none else some p
  read_chunks (chunk ∷ chunks) buffer asked p =
      let pieces = split_events (buffer ++ chunk) in
      let (outcome, asked') = read_events (but_last pieces) (suc asked) p in
      let rest : Option A = elim outcome [
        | none ↦ none
        | some p' ↦ read_chunks chunks (last_piece pieces) asked' p'
      ] in
      if is_complete p then some p else if is_cancelled asked then none else rest
