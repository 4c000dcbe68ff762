-- ===== src/Conversation/TurnBuffer.antt =====
-- customer-turn-buffer.js: one turn of a provider, held until it is known to be an answer.
use magento2_chat_ai.Conversation.Sanitizer as Sanitizer
use magento2_chat_ai.Conversation.Sanitizer.{Stream, new_stream}
use magento2_chat_ai.Conversation.Sanitizer.Pieces.{push_all, shown, reply}
use magento2_chat_ai.Prelude.{◌≡◌, refl, ap, ◌∙◌, sym, List, [], ◌∷◌, ◌++◌, append_assoc}
use magento2_chat_ai.Text.{Text}

pub record TurnBuffer : Type 0 where
  pub sanitizer : Stream
  pub text : Text

abbrev pub new_buffer : TurnBuffer
new_buffer = record { sanitizer = new_stream; text = [] }

unfoldable pub push : Text → TurnBuffer → TurnBuffer
push content b =
    let (out, st) = Sanitizer.push content b.sanitizer in
    record { sanitizer = st; text = b.text ++ out }

-- `release`, and what it returns.
unfoldable pub release : TurnBuffer → Text × TurnBuffer
release b = (b.text, record b { text = [] })

unfoldable pub commit : TurnBuffer → Text × TurnBuffer
unfolding release
commit b =
    let (released, b') = release b in
    let (rest, st) = Sanitizer.flush b'.sanitizer in
    (released ++ rest, record b' { sanitizer = st })

unfoldable pub discard : TurnBuffer → TurnBuffer
discard b = record { sanitizer = Sanitizer.discard b.sanitizer; text = [] }

-- What a turn does with its buffer between a discard and its end.
pub data Call : Type 0 where
  pushed : Text → Call
  released : Call

unfoldable pub call : Call → TurnBuffer → Text × TurnBuffer
unfolding push release
call (pushed content) b = ([], push content b)
call released b = release b

-- What was released by the calls, and the buffer after them.
unfoldable pub run : List Call → TurnBuffer → Text × TurnBuffer
unfolding call
run [] b = ([], b)
run (c ∷ cs) b = let (out, b') = call c b in let (rest, b'') = run cs b' in (out ++ rest, b'')

unfoldable pub chunks_of : List Call → List Text
chunks_of [] = []
chunks_of (pushed content ∷ cs) = content ∷ chunks_of cs
chunks_of (released ∷ cs) = chunks_of cs

run-shown :
    (cs : List Call) (b : TurnBuffer)
    → (run cs b).0 ++ (commit (run cs b).1).0 ≡ b.text ++ shown (chunks_of cs) b.sanitizer
unfolding run commit chunks_of push_all
run-shown [] b = refl
run-shown (pushed v ∷ cs) b =
    let (out, st) = Sanitizer.push v b.sanitizer in
    run-shown cs (record { sanitizer = st; text = b.text ++ out })
    ∙ append_assoc b.text out (shown (chunks_of cs) st)
    ∙ ap (λ (r : Text). b.text ++ r)
        (sym (
          append_assoc out (push_all (chunks_of cs) st).0
            (Sanitizer.flush (push_all (chunks_of cs) st).1).0))
run-shown (released ∷ cs) b =
    let after : TurnBuffer = record b { text = [] } in
    append_assoc b.text (run cs after).0 (commit (run cs after).1).0
    ∙ ap (λ (r : Text). b.text ++ r) (run-shown cs after)

-- After a discard, whatever the buffer held, what is released by any series of pushes and releases
-- and what the commit returns make together the reply that the pushed chunks show without a buffer.
pub run-reply :
    (cs : List Call) (b : TurnBuffer)
    → (run cs (discard b)).0 ++ (commit (run cs (discard b)).1).0 ≡ reply (chunks_of cs)
unfolding discard reply Sanitizer.discard
run-reply cs b = run-shown cs (discard b)
