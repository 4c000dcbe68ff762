-- ===== src/Conversation/Sanitizer/Pieces.antt =====
-- customer-response-sanitizer.js: where the stream cuts a reply, whatever chunks it comes in.
use magento2_chat_ai.Conversation.Sanitizer.{
  Stream, new_stream, push, flush, prepare_for_emission, sanitize_customer_response, hold_back,
}
use magento2_chat_ai.Prelude.{
  ℕ, zero, suc, ◌+◌, ◌-◌, ◌≤◌, ◌≡◌, refl, sym, ap, ◌∙◌, Bool, true, false, List, [], ◌∷◌, ◌++◌,
  append-nil, append_assoc, length, length-append, length-drop, take, drop, take-append-drop,
  take_last, ◌==◌, ==_iff, Bool-cases, inl, inr, arith,
}
use magento2_chat_ai.Text.{Text, trim_start}

-- `chunks.join('')`.
unfoldable pub join : List Text → Text
join [] = []
join (x ∷ xs) = x ++ join xs

-- The chunks of a reply are pushed one after the other.
unfoldable pub push_all : List Text → Stream → Text × Stream
push_all [] st = ([], st)
push_all (v ∷ vs) st =
    let (out, st') = push v st in let (rest, st'') = push_all vs st' in (out ++ rest, st'')

-- What is shown of a reply that came in these chunks, at its end.
unfoldable pub reply : List Text → Text
unfolding push_all
reply vs = let (out, st) = push_all vs new_stream in out ++ (flush st).0

-- Pieces that are prepared one by one.
unfoldable pub render : Bool → List Text → Text
render emitted [] = []
render emitted (p ∷ ps) =
    let (out, emitted') = prepare_for_emission emitted p in out ++ render emitted' ps

drop-drop {ℓ} :
    {A : Type ℓ} (j k : ℕ) (xs ys : List A)
    → j ≤ length xs
    → drop k (drop j xs ++ ys) ≡ drop (j + k) (xs ++ ys)
drop-drop zero k xs ys h = ap (λ n. drop n (xs ++ ys)) (omega arith)
drop-drop (suc j) k [] ys h = absurd (omega arith)
drop-drop (suc j) k (x ∷ xs) ys h =
    let e : suc j + k ≡ suc (j + k) = omega arith in rw e (drop-drop j k xs ys (omega arith))

take_last-append {ℓ} :
    {A : Type ℓ} (n : ℕ) (xs ys : List A)
    → take_last n (take_last n xs ++ ys) ≡ take_last n (xs ++ ys)
take_last-append n xs ys =
    drop-drop (length xs - n) (length (take_last n xs ++ ys) - n) xs ys (omega arith)
    ∙ ap (λ k. drop k (xs ++ ys))
        (omega (
          arith,
          length-append (take_last n xs) ys,
          length-append xs ys,
          length-drop (length xs - n) xs,
        ))

pub push-pending :
    (v : Text) (st : Stream) → (push v st).1.pending ≡ take_last hold_back (st.pending ++ v)
unfolding push
push-pending v st = elim (Bool-cases (length (st.pending ++ v) - hold_back == 0)) [
  | inl e ↦ rw (e, (==_iff (length (st.pending ++ v) - hold_back) 0).0 e) refl
  | inr e ↦ rw e refl
]

pub push_all-pending :
    (vs : List Text) (st : Stream) (seen : Text)
    → st.pending ≡ take_last hold_back seen
    → (push_all vs st).1.pending ≡ take_last hold_back (seen ++ join vs)
unfolding push_all join
push_all-pending [] st seen h = h ∙ ap (take_last hold_back) (sym (append-nil seen))
push_all-pending (v ∷ vs) st seen h =
    push_all-pending vs (push v st).1 (seen ++ v) (
      push-pending v st
      ∙ ap (λ p. take_last hold_back (p ++ v)) h
      ∙ take_last-append hold_back seen v)
    ∙ ap (take_last hold_back) (append_assoc seen v (join vs))

-- Where the stream cuts: `pending` is what waits before the next chunk.
unfoldable pub cuts : Text → List Text → List Text
cuts pending [] = pending ∷ []
cuts pending (v ∷ vs) = elim (length (pending ++ v) - hold_back == 0) [
  | true ↦ cuts (pending ++ v) vs
  | false ↦
      take (length (pending ++ v) - hold_back) (pending ++ v)
      ∷ cuts (drop (length (pending ++ v) - hold_back) (pending ++ v)) vs
]

join-cuts : (vs : List Text) (pending : Text) → join (cuts pending vs) ≡ pending ++ join vs
unfolding join cuts
join-cuts [] pending = refl
join-cuts (v ∷ vs) pending = elim (Bool-cases (length (pending ++ v) - hold_back == 0)) [
  | inl e ↦ rw (e, cuts) (join-cuts vs (pending ++ v) ∙ append_assoc pending v (join vs))
  | inr e ↦
      rw (e, cuts)
        (ap (λ (r : Text). take (length (pending ++ v) - hold_back) (pending ++ v) ++ r)
            (join-cuts vs (drop (length (pending ++ v) - hold_back) (pending ++ v)))
          ∙ sym (
              append_assoc (take (length (pending ++ v) - hold_back) (pending ++ v))
                (drop (length (pending ++ v) - hold_back) (pending ++ v)) (join vs))
          ∙ ap (λ (r : Text). r ++ join vs)
              (take-append-drop (length (pending ++ v) - hold_back) (pending ++ v))
          ∙ append_assoc pending v (join vs))
]

-- What `reply` shows from any state on.
abbrev pub shown : List Text → Stream → Text
shown vs st = (push_all vs st).0 ++ (flush (push_all vs st).1).0

module _ (v : Text) (vs : List Text) (pending : Text) where
  cuts_held :
      (length (pending ++ v) - hold_back == 0) ≡ true
      → cuts pending (v ∷ vs) ≡ cuts (pending ++ v) vs
  unfolding cuts
  cuts_held e = rw (e, cuts) refl

  cuts_made :
      (length (pending ++ v) - hold_back == 0) ≡ false
      → cuts pending (v ∷ vs)
        ≡ take (length (pending ++ v) - hold_back) (pending ++ v)
          ∷ cuts (drop (length (pending ++ v) - hold_back) (pending ++ v)) vs
  unfolding cuts
  cuts_made e = rw (e, cuts) refl

shown-cuts :
    (vs : List Text) (st : Stream) → shown vs st ≡ render st.has_emitted_text (cuts st.pending vs)
unfolding push_all push flush render cuts
shown-cuts [] st = sym (append-nil (prepare_for_emission st.has_emitted_text st.pending).0)
shown-cuts (v ∷ vs) st = elim (Bool-cases (length (st.pending ++ v) - hold_back == 0)) [
  | inl e ↦
      rw (cuts_held v vs st.pending e, e) (shown-cuts vs (record st { pending = st.pending ++ v }))
  | inr e ↦
      let k = length (st.pending ++ v) - hold_back in
      let piece = take k (st.pending ++ v) in
      let after : Stream = record {
        pending = drop k (st.pending ++ v);
        has_emitted_text = (prepare_for_emission st.has_emitted_text piece).1;
      } in
      rw (cuts_made v vs st.pending e, e)
        (append_assoc (prepare_for_emission st.has_emitted_text piece).0 (push_all vs after).0
            (flush (push_all vs after).1).0
          ∙ ap (λ (r : Text). (prepare_for_emission st.has_emitted_text piece).0 ++ r)
              (shown-cuts vs after))
]

-- However a reply is split into chunks, what is shown of it in the end is its text cut into pieces,
-- of which none is lost or moved, each prepared after the ones before it.
pub reply-pieces :
    (vs : List Text)
    → (pieces : List Text) × (join pieces ≡ join vs) × (reply vs ≡ render false pieces)
unfolding reply
reply-pieces vs = (cuts [] vs, join-cuts vs [], shown-cuts vs new_stream)

-- After any chunks, exactly the last 22 units of what came in are held back, or all of it where it
-- is shorter.
pub push_all-held :
    (vs : List Text)
    → ((push_all vs new_stream).1.pending ≡ take_last hold_back (join vs)) × (hold_back ≡ 22)
unfolding hold_back
push_all-held vs = (push_all-pending vs new_stream [] refl, refl)

cuts-short :
    (vs : List Text) (pending : Text)
    → length (pending ++ join vs) ≤ hold_back
    → cuts pending vs ≡ (pending ++ join vs) ∷ []
unfolding join cuts
cuts-short [] pending h = ap (λ (r : Text). r ∷ []) (sym (append-nil pending))
cuts-short (v ∷ vs) pending h =
    let fits : length (pending ++ v) ≤ hold_back = omega (
      arith,
      length-append pending v,
      length-append pending (v ++ join vs),
      length-append v (join vs),
    ) in
    let e : (length (pending ++ v) - hold_back == 0) ≡ true = ground arith in
    rw (cuts_held v vs pending e) (
      cuts-short vs (pending ++ v) (rw (append_assoc pending v (join vs)) h)
      ∙ ap (λ (r : Text). r ∷ []) (append_assoc pending v (join vs)))

-- A reply of at most 22 units is shown as the whole text would be, whatever chunks it came in: the
-- text without what the customer must not see, and without space at its front.
pub reply-short :
    (vs : List Text)
    → length (join vs) ≤ 22
    → reply vs ≡ trim_start (sanitize_customer_response (join vs))
unfolding reply render prepare_for_emission hold_back
reply-short vs h =
    shown-cuts vs new_stream
    ∙ ap (render false) (cuts-short vs [] h)
    ∙ append-nil (trim_start (sanitize_customer_response (join vs)))
