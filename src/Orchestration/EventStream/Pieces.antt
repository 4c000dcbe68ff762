-- ===== src/Orchestration/EventStream/Pieces.antt =====
-- openai-compatible-orchestrator.js: the events of a text that goes on.
use magento2_chat_ai.Orchestration.EventStream.{split_events, last_piece, but_last}
use magento2_chat_ai.Prelude.{
  ℕ, ◌≡◌, ◌≢◌, refl, sym, ap, ◌∙◌, true, false, ◌&&◌, inl, inr, List, [], ◌∷◌, ◌++◌, append-nil,
  ◌==◌, Bool-cases,
}
use magento2_chat_ai.Text.{cons_first, Text}

split_break :
    (c d : ℕ) (s : Text)
    → (c == 10 && d == 10) ≡ true
    → split_events (c ∷ d ∷ s) ≡ [] ∷ split_events s
unfolding split_events
split_break c d s e = rw (e, split_events) refl

split_on :
    (c d : ℕ) (s : Text)
    → (c == 10 && d == 10) ≡ false
    → split_events (c ∷ d ∷ s) ≡ cons_first c (split_events (d ∷ s))
unfolding split_events
split_on c d s e = rw (e, split_events) refl

-- A text has a first piece.
pub split-cases : (s : Text) → (p : Text) × (ps : List Text) × (split_events s ≡ p ∷ ps)
unfolding split_events cons_first
split-cases [] = ([], [], refl)
split-cases (c ∷ []) = (c ∷ [], [], refl)
split-cases (c ∷ d ∷ s) = elim (Bool-cases (c == 10 && d == 10)) [
  | inl e ↦ ([], split_events s, split_break c d s e)
  | inr e ↦
      let (p, ps, h) = split-cases (d ∷ s) in (c ∷ p, ps, split_on c d s e ∙ ap (cons_first c) h)
]

split_single : (s p : Text) → split_events s ≡ p ∷ [] → s ≡ p
unfolding cons_first split_events
split_single [] p h = cc
split_single (c ∷ []) p h = cc
split_single (c ∷ d ∷ s) p h = elim (Bool-cases (c == 10 && d == 10)) [
  | inl e ↦
      let (q, qs, k) = split-cases s in
      absurd
        (many_ne_one q qs (ap (λ (r : List Text). [] ∷ r) (sym k) ∙ sym (split_break c d s e) ∙ h))
  | inr e ↦
      let (q, qs, k) = split-cases (d ∷ s) in
      let whole : (c ∷ q) ∷ qs ≡ p ∷ [] = sym (ap (cons_first c) k) ∙ sym (split_on c d s e) ∙ h in
      let alone : qs ≡ [] = cc in
      let front : c ∷ q ≡ p = cc in
      ap (λ (r : Text). c ∷ r) (split_single (d ∷ s) q (k ∙ ap (λ (r : List Text). q ∷ r) alone))
      ∙ front
]
  where
    many_ne_one : (q : Text) (qs : List Text) → [] ∷ q ∷ qs ≢ p ∷ []
    many_ne_one q qs e = cc

-- The pieces of a text that goes on with `t`, from its own pieces.
abbrev pub pieces_with : List Text → Text → List Text
pieces_with ps t = but_last ps ++ split_events (last_piece ps ++ t)

cons_first-pieces :
    (c d : ℕ) (s t q : Text) (qs : List Text)
    → (c == 10 && d == 10) ≡ false
    → split_events (d ∷ s) ≡ q ∷ qs
    → cons_first c (pieces_with (q ∷ qs) t) ≡ pieces_with ((c ∷ q) ∷ qs) t
unfolding but_last last_piece cons_first
cons_first-pieces c d s t q [] e k =
    let whole = split_single (d ∷ s) q k in
    ap (λ (r : Text). cons_first c (split_events (r ++ t))) (sym whole)
    ∙ sym (split_on c d (s ++ t) e)
    ∙ ap (λ (r : Text). split_events (c ∷ r ++ t)) whole
cons_first-pieces c d s t q (r ∷ rs) e k = refl

-- A text that goes on is split from its last piece on.
pub split-append : (s t : Text) → split_events (s ++ t) ≡ pieces_with (split_events s) t
unfolding but_last last_piece cons_first
split-append [] t = unfold split_events in refl
split-append (c ∷ []) t = unfold split_events in refl
split-append (c ∷ d ∷ s) t = elim (Bool-cases (c == 10 && d == 10)) [
  | inl e ↦
      let (q, qs, k) = split-cases s in
      split_break c d (s ++ t) e
      ∙ ap (λ (r : List Text). [] ∷ r) (split-append s t)
      ∙ ap (λ (r : List Text). [] ∷ pieces_with r t) k
      ∙ ap (λ (r : List Text). pieces_with r t)
          (sym (split_break c d s e ∙ ap (λ (r : List Text). [] ∷ r) k))
  | inr e ↦
      let (q, qs, k) = split-cases (d ∷ s) in
      split_on c d (s ++ t) e
      ∙ ap (cons_first c) (split-append (d ∷ s) t)
      ∙ ap (λ (r : List Text). cons_first c (pieces_with r t)) k
      ∙ cons_first-pieces c d s t q qs e k
      ∙ ap (λ (r : List Text). pieces_with r t) (sym (split_on c d s e ∙ ap (cons_first c) k))
]

pub but_last-append :
    (es : List Text) (p : Text) (ps : List Text) → but_last (es ++ p ∷ ps) ≡ es ++ but_last (p ∷ ps)
unfolding but_last
but_last-append [] p ps = refl
but_last-append (e ∷ []) p ps = refl
but_last-append (e ∷ f ∷ es) p ps = ap (λ (r : List Text). e ∷ r) (but_last-append (f ∷ es) p ps)

append_cancel {ℓ} : {A : Type ℓ} (xs ys zs : List A) → xs ++ ys ≡ xs ++ zs → ys ≡ zs
append_cancel [] ys zs h = h
append_cancel (x ∷ xs) ys zs h = append_cancel xs ys zs (cc)

but_last-last : (p : Text) (ps : List Text) → but_last (p ∷ ps) ++ last_piece (p ∷ ps) ∷ [] ≡ p ∷ ps
unfolding but_last last_piece
but_last-last p [] = refl
but_last-last p (q ∷ ps) = ap (λ (r : List Text). p ∷ r) (but_last-last q ps)

-- What is left of a text holds no whole event.
pub but_last-left : (s : Text) → but_last (split_events (last_piece (split_events s))) ≡ []
unfolding but_last
but_last-left s =
    let (p, ps, k) = split-cases s in
    let left = last_piece (split_events s) in
    let same : but_last (split_events s) ++ split_events left
        ≡ but_last (split_events s) ++ left ∷ [] =
      ap (λ (r : Text). but_last (split_events s) ++ split_events r) (sym (append-nil left))
      ∙ sym (split-append s [])
      ∙ ap split_events (append-nil s)
      ∙ k
      ∙ sym (but_last-last p ps)
      ∙ ap (λ (r : List Text). but_last r ++ last_piece r ∷ []) (sym k) in
    ap but_last (append_cancel (but_last (split_events s)) (split_events left) (left ∷ []) same)
