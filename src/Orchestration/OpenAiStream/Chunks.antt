-- ===== src/Orchestration/OpenAiStream/Chunks.antt =====
-- `readOpenAiStream` of openai-compatible-orchestrator.js: the bounds of the chunks do not matter.
use magento2_chat_ai.Orchestration.EventStream.{split_events, but_last}
use magento2_chat_ai.Orchestration.EventStream.Chunks.{join, read_all, chunks-read_all}
use magento2_chat_ai.Orchestration.OpenAiStream.{
  Chunk, Progress, no_progress, read_parsed, read_lines, read_event, is_text, split_lines,
  read_open_ai_stream,
}
use magento2_chat_ai.Prelude.{
  ◌≡◌, refl, ◌∙◌, true, false, not, ◌||◌, inl, inr, Option, none, some, List, [], ◌∷◌, length, drop,
  ◌==◌, Bool-cases,
}
use magento2_chat_ai.Text.{Text, starts_with, codes, trim}

module _ {U D : Type 0} (parse : Text → Option (Chunk U D)) where
  parsed_complete :
      (o : Option (Chunk U D)) (p : Progress U D)
      → (read_parsed parse o p).stream_complete ≡ p.stream_complete
  unfolding read_parsed
  parsed_complete none p = refl
  parsed_complete (some c) p = refl

  lines_complete :
      (ls : List Text) (p : Progress U D)
      → p.stream_complete ≡ true
      → (read_lines parse ls p).stream_complete ≡ true
  unfolding read_lines
  lines_complete [] p h = h
  lines_complete (l ∷ ls) p h =
      let line = trim l in
      let payload = trim (drop 5 line) in
      elim (Bool-cases (not (starts_with (codes "data:") line) || length payload == 0)) [
        | inl e ↦ rw e (lines_complete ls p h)
        | inr e ↦ elim (Bool-cases (is_text (codes "[DONE]") payload)) [
          | inl f ↦ rw e (rw f refl)
          | inr f ↦ rw e (
              rw f (
                lines_complete ls (read_parsed parse (parse payload) p)
                  (parsed_complete (parse payload) p ∙ h)))
        ]
      ]

  event_complete :
      (e : Text) (p : Progress U D)
      → p.stream_complete ≡ true
      → (read_event parse e p).stream_complete ≡ true
  unfolding read_event
  event_complete e p h = lines_complete (split_lines e) p h

-- A stream that is not cancelled, and in which no event but the last whole one may be the end, is
-- read as its whole text is, however it was cut into chunks. What follows the last blank line is
-- not read.
pub read-chunks_irrelevant :
    {U D : Type 0} (parse : Text → Option (Chunk U D)) (chunks : List Text)
    → (read_all
        (read_event parse)
        (but_last (but_last (split_events (join chunks))))
        no_progress).stream_complete
      ≡ false
    → read_open_ai_stream parse (λ n. false) chunks
      ≡ some (read_all (read_event parse) (but_last (split_events (join chunks))) no_progress)
unfolding read_open_ai_stream but_last
read-chunks_irrelevant parse chunks h =
    chunks-read_all (read_event parse) (λ p. p.stream_complete) (λ p. false) (event_complete parse)
      (λ e p b. absurd (never_broken b)) chunks [] 0 no_progress refl refl h
  where
    never_broken : false ≡ true → ⊥
    never_broken b = cc
