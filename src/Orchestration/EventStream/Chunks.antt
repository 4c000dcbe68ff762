-- ===== src/Orchestration/EventStream/Chunks.antt =====
-- openai-compatible-orchestrator.js: the bounds of the chunks do not matter.
use magento2_chat_ai.Orchestration.EventStream.{
  split_events, last_piece, but_last, read_events, read_chunks,
}
use magento2_chat_ai.Orchestration.EventStream.Pieces.{
  but_last-append, but_last-left, split-append, split-cases,
}
use magento2_chat_ai.Prelude.{
  ℕ, suc, ◌≡◌, ◌≢◌, refl, sym, ap, ◌∙◌, Bool, true, false, inl, inr, some, List, [], ◌∷◌, ◌++◌,
  append-nil, append_assoc, Bool-cases, arith,
}
use magento2_chat_ai.Text.{Text}

-- `chunks.join('')`.
unfoldable pub join : List Text → Text
join [] = []
join (x ∷ xs) = x ++ join xs

-- The events of a whole text, one after the other.
unfoldable pub read_all : {A : Type 0} → (Text → A → A) → List Text → A → A
read_all read_event [] p = p
read_all read_event (e ∷ es) p = read_all read_event es (read_event e p)

module _ {A : Type 0} (read_event : Text → A → A) (is_complete is_broken : A → Bool)
    (stays : (e : Text) (p : A) → is_complete p ≡ true → is_complete (read_event e p) ≡ true)
    (halts : (e : Text) (p : A) → is_broken p ≡ true → read_event e p ≡ p) where
  read_all-append :
      (es fs : List Text) (p : A)
      → read_all read_event (es ++ fs) p ≡ read_all read_event fs (read_all read_event es p)
  unfolding read_all
  read_all-append [] fs p = refl
  read_all-append (e ∷ es) fs p = read_all-append es fs (read_event e p)

  all_complete :
      (es : List Text) (p : A)
      → is_complete p ≡ true
      → is_complete (read_all read_event es p) ≡ true
  unfolding read_all
  all_complete [] p h = h
  all_complete (e ∷ es) p h = all_complete es (read_event e p) (stays e p h)

  abbrev never : ℕ → Bool
  never n = false

  broken-read_all : (es : List Text) (p : A) → is_broken p ≡ true → read_all read_event es p ≡ p
  unfolding read_all
  broken-read_all [] p h = refl
  broken-read_all (e ∷ es) p h = ap (read_all read_event es) (halts e p h) ∙ broken-read_all es p h

  events-read_all :
      (es : List Text) (asked : ℕ) (p : A)
      → (read_events read_event is_complete is_broken never es asked p).0
        ≡ some (read_all read_event es p)
  unfolding read_events read_all
  events-read_all [] asked p = refl
  events-read_all (e ∷ es) asked p = elim (Bool-cases (is_broken p)) [
    | inl h ↦ rw h (ap some (sym (unfold read_all in broken-read_all (e ∷ es) p h)))
    | inr h ↦ rw h (events-read_all es (suc asked) (read_event e p))
  ]

  chunks_complete :
      (chunks : List Text) (buffer : Text) (asked : ℕ) (p : A)
      → is_complete p ≡ true
      → read_chunks read_event is_complete is_broken never chunks buffer asked p ≡ some p
  unfolding read_chunks
  chunks_complete [] buffer asked p h = rw h refl
  chunks_complete (c ∷ cs) buffer asked p h = rw h refl

  chunks-step :
      (c : Text) (cs : List Text) (buffer : Text) (asked : ℕ) (p : A)
      → is_complete p ≡ false
      → read_chunks read_event is_complete is_broken never (c ∷ cs) buffer asked p
        ≡ read_chunks read_event is_complete is_broken never cs
            (last_piece (split_events (buffer ++ c)))
            (read_events read_event is_complete is_broken never
              (but_last (split_events (buffer ++ c)))
              (suc asked)
              p).1
            (read_all read_event (but_last (split_events (buffer ++ c))) p)
  unfolding read_chunks
  chunks-step c cs buffer asked p h =
      simp (h, events-read_all (but_last (split_events (buffer ++ c))) (suc asked) p)

  chunks-end :
      (buffer : Text) (asked : ℕ) (p : A)
      → read_chunks read_event is_complete is_broken never [] buffer asked p ≡ some p
  unfolding read_chunks
  chunks-end buffer asked p = ground arith

  -- Only the last of the events ends the stream, if any does.
  module _ (es : List Text) (p : A) where
    rest-unfinished :
        (fs : List Text)
        → is_complete (read_all read_event (but_last (es ++ fs)) p) ≡ false
        → is_complete (read_all read_event es p) ≡ false
        → is_complete (read_all read_event (but_last fs) (read_all read_event es p)) ≡ false
    unfolding but_last read_all
    rest-unfinished [] k h = h
    rest-unfinished (f ∷ fs) k h =
        ap is_complete (
          sym (
            ap (λ (r : List Text). read_all read_event r p) (but_last-append es f fs)
            ∙ read_all-append es (but_last (f ∷ fs)) p))
        ∙ k

    rest-empty :
        (fs : List Text)
        → is_complete (read_all read_event (but_last (es ++ fs)) p) ≡ false
        → is_complete (read_all read_event es p) ≡ true
        → fs ≡ []
    rest-empty [] k h = refl
    rest-empty (f ∷ fs) k h = absurd (
        contradiction (
          sym (all_complete (but_last (f ∷ fs)) (read_all read_event es p) h)
          ∙ ap is_complete (
              sym (
                ap (λ (r : List Text). read_all read_event r p) (but_last-append es f fs)
                ∙ read_all-append es (but_last (f ∷ fs)) p))
          ∙ k))
      where
        contradiction : true ≢ false
        contradiction e = cc

  -- The events of a text that goes on: those before the piece that is left, then those of the rest.
  events-split :
      (s t : Text)
      → but_last (split_events (s ++ t))
        ≡ but_last (split_events s) ++ but_last (split_events (last_piece (split_events s) ++ t))
  events-split s t =
      let (q, qs, k) = split-cases (last_piece (split_events s) ++ t) in
      ap but_last (split-append s t)
      ∙ ap (λ (r : List Text). but_last (but_last (split_events s) ++ r)) k
      ∙ but_last-append (but_last (split_events s)) q qs
      ∙ ap (λ (r : List Text). but_last (split_events s) ++ but_last r) (sym k)

  pub chunks-read_all :
      (chunks : List Text) (buffer : Text) (asked : ℕ) (p : A)
      → but_last (split_events buffer) ≡ []
      → is_complete p ≡ false
      → is_complete
          (read_all read_event (but_last (but_last (split_events (buffer ++ join chunks)))) p)
        ≡ false
      → read_chunks read_event is_complete is_broken never chunks buffer asked p
        ≡ some (read_all read_event (but_last (split_events (buffer ++ join chunks))) p)
  unfolding join read_all
  chunks-read_all [] buffer asked p single h k =
      chunks-end buffer asked p
      ∙ ap (λ (r : List Text). some (read_all read_event r p))
          (sym (ap (λ (r : Text). but_last (split_events r)) (append-nil buffer) ∙ single))
  chunks-read_all (c ∷ cs) buffer asked p single h k =
      let es = but_last (split_events (buffer ++ c)) in
      let left = last_piece (split_events (buffer ++ c)) in
      let fs = but_last (split_events (left ++ join cs)) in
      let p' = read_all read_event es p in
      let asked' = (read_events read_event is_complete is_broken never es (suc asked) p).1 in
      let whole : but_last (split_events (buffer ++ (c ++ join cs))) ≡ es ++ fs =
        ap (λ (r : Text). but_last (split_events r)) (sym (append_assoc buffer c (join cs)))
        ∙ events-split (buffer ++ c) (join cs) in
      let k' : is_complete (read_all read_event (but_last (es ++ fs)) p) ≡ false =
        ap (λ (r : List Text). is_complete (read_all read_event (but_last r) p)) (sym whole) ∙ k in
      let same : some (read_all read_event fs p')
          ≡ some (read_all read_event (but_last (split_events (buffer ++ (c ++ join cs)))) p) =
        ap some
          (sym (ap (λ (r : List Text). read_all read_event r p) whole ∙ read_all-append es fs p)) in
      chunks-step c cs buffer asked p h
      ∙ (elim (Bool-cases (is_complete p')) [
        | inl done ↦
            chunks_complete cs left asked' p' done
            ∙ ap (λ (r : List Text). some (read_all read_event r p'))
                (sym (rest-empty es p fs k' done))
        | inr more ↦
            chunks-read_all cs left asked' p' (but_last-left (buffer ++ c)) more
              (rest-unfinished es p fs k' more)
      ])
      ∙ same
