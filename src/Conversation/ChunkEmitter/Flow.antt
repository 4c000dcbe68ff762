-- ===== src/Conversation/ChunkEmitter/Flow.antt =====
-- What the emitter of smooth-chunk-emitter.js does to the text: no character is lost, doubled or
-- moved, and the queue runs empty.
use magento2_chat_ai.Prelude.{
  ℕ, ◌+◌, ◌≤◌, ◌<◌, ◌≡◌, refl, sym, ap, ap₂, ◌∙◌, Bool, true, false, List, [], ◌∷◌, ◌++◌, arith,
  length, if◌then◌else◌, Bool-cases, inl, inr, leb, append_assoc, append-nil,
}
use magento2_chat_ai.Conversation.ChunkEmitter.{
  Config, Emitter, Event, pushes, fires, drains, is_empty, settle_drains, schedule, emit_chunk,
  pump, push, drain, step, take_loop, take_code_points, budget,
}

unfoldable pub joined : List (List ℕ) → List ℕ
joined [] = []
joined (chunk ∷ chunks) = chunk ++ joined chunks

joined-append :
    (xs : List (List ℕ)) (chunk : List ℕ) → joined (xs ++ chunk ∷ []) ≡ joined xs ++ chunk
unfolding joined
joined-append [] chunk = append-nil chunk
joined-append (x ∷ xs) chunk = rw (joined-append xs chunk, append_assoc x (joined xs) chunk)

-- A taken prefix and the rest make up the text; the prefix has a character if there is one, and no
-- more than the limit if that is not 0.
take_loop-append :
    (limit count : ℕ) (cs : List ℕ)
    → (take_loop limit count cs).0 ++ (take_loop limit count cs).1 ≡ cs
unfolding take_loop
take_loop-append limit count [] = refl
take_loop-append limit count (c ∷ cs) = elim (Bool-cases (leb limit (count + 1))) [
  | inl full ↦ rw full
  | inr room ↦ rw room (ap (◌∷◌ c) (take_loop-append limit (count + 1) cs))
]

length-take_loop-le :
    (limit count : ℕ) (cs : List ℕ)
    → count < limit
    → count + length (take_loop limit count cs).0 ≤ limit
unfolding take_loop
length-take_loop-le limit count [] h = omega arith
length-take_loop-le limit count (c ∷ cs) h = elim (Bool-cases (leb limit (count + 1))) [
  | inl full ↦ rw full (omega arith)
  | inr room ↦ rw room (omega (arith, length-take_loop-le limit (count + 1) cs (ground arith)))
]

-- The text that `emit` was handed, and what is still queued behind it.
unfoldable pub passed : Emitter → List ℕ
passed e = joined e.emitted ++ e.queue

-- Pushes and timer events of a run that is neither cancelled nor failing, and calls of `drain`.
pub data Call : Type 0 where
  pushing : List ℕ → Call
  firing : Call
  draining : Call

pub event : Call → Event
event (pushing content) = pushes false false content
event firing = fires false false
event draining = drains false

pub calls : Config → List Call → Emitter → Emitter
calls c [] e = e
calls c (k ∷ ks) e = calls c ks (step c (event k) e)

pub pushed : List Call → List ℕ
pushed [] = []
pushed (pushing content ∷ ks) = content ++ pushed ks
pushed (k ∷ ks) = pushed ks

settle-passed : (e : Emitter) → passed (settle_drains e) ≡ passed e
unfolding settle_drains passed
settle-passed e = refl

schedule-passed : (e : Emitter) → passed (schedule e) ≡ passed e
unfolding schedule passed
schedule-passed e = ground arith

passed_if :
    {text : List ℕ} (b : Bool) (x y : Emitter)
    → passed x ≡ text
    → passed y ≡ text
    → passed (if b then x else y) ≡ text
passed_if true x y p q = p
passed_if false x y p q = q

emit_chunk-passed :
    (chunk : List ℕ) (e : Emitter)
    → passed (emit_chunk false chunk e) ≡ joined e.emitted ++ (chunk ++ e.queue)
unfolding emit_chunk
emit_chunk-passed chunk e =
    let e' = record e { emitted = e.emitted ++ chunk ∷ [] } in
    let handed : passed e' ≡ joined e.emitted ++ (chunk ++ e.queue) =
      unfold passed in
      (ap (λ t. t ++ e.queue) (joined-append e.emitted chunk)
        ∙ append_assoc (joined e.emitted) chunk e.queue) in
    passed_if (is_empty e.queue) (settle_drains e') (schedule e') (settle-passed e' ∙ handed)
      (schedule-passed e' ∙ handed)

emit_chunk-failure : (chunk : List ℕ) (e : Emitter) → (emit_chunk false chunk e).failure ≡ e.failure
unfolding emit_chunk settle_drains schedule
emit_chunk-failure chunk e = ground arith

pub pump-passed : (c : Config) (e : Emitter) → passed (pump c false false e) ≡ passed e
unfolding pump
pump-passed c e = elim (Bool-cases (is_empty e.queue)) [
  | inl idle ↦ rw idle (settle-passed (record e { timer = false }) ∙ unfold passed in refl)
  | inr busy ↦
      let n = budget c (length e.queue) in
      let (chunk, remaining) = take_code_points e.queue n in
      rw busy (
        emit_chunk-passed chunk (record e { timer = false; queue = remaining })
        ∙ unfold passed take_code_points in
          ap (λ t. joined e.emitted ++ t) (take_loop-append n 0 e.queue))
]

pub pump-failure : (c : Config) (e : Emitter) → (pump c false false e).failure ≡ e.failure
unfolding pump settle_drains
pump-failure c e =
    let (chunk, remaining) = take_code_points e.queue (budget c (length e.queue)) in
    ground (arith, emit_chunk-failure chunk (record e { timer = false; queue = remaining }))

pub push-passed :
    (c : Config) (content : List ℕ) (e : Emitter)
    → e.failure ≡ false
    → (passed (push c false false content e) ≡ passed e ++ content)
      × ((push c false false content e).failure ≡ false)
unfolding push
push-passed c [] e sound =
    let same : push c false false [] e ≡ e = ground arith in
    (ap passed same ∙ sym (append-nil (passed e)), ap (λ x. x.failure) same ∙ sound)
push-passed c (x ∷ content) e sound =
    let e' = record e { queue = e.queue ++ x ∷ content } in
    let same : push c false false (x ∷ content) e
        ≡ (if e.timer then e' else pump c false false e') =
      ground arith in
    let queued : passed e' ≡ passed e ++ x ∷ content =
      unfold passed in sym (append_assoc (joined e.emitted) e.queue (x ∷ content)) in
    (
      ap passed same
          ∙ passed_if e.timer e' (pump c false false e') queued (pump-passed c e' ∙ queued),
      ap (λ y. y.failure) same ∙ ground (arith, pump-failure c e'),
    )

pub drain-passed : (e : Emitter) → passed (drain false e).1 ≡ passed e
unfolding passed
drain-passed e =
    let text : ((drain false e).1.emitted ≡ e.emitted) × ((drain false e).1.queue ≡ e.queue) =
      unfold drain schedule in ground arith in
    ap₂ (λ x y. joined x ++ y) text.0 text.1

step-passed :
    (c : Config) (k : Call) (e : Emitter)
    → e.failure ≡ false
    → (passed (step c (event k) e) ≡ passed e ++ pushed (k ∷ []))
      × ((step c (event k) e).failure ≡ false)
unfolding step event pushed
step-passed c (pushing content) e sound = rw (append-nil content) (push-passed c content e sound)
step-passed c firing e sound = (
  passed_if e.timer (pump c false false e) e (pump-passed c e) refl ∙ sym (append-nil (passed e)),
  ground (arith, pump-failure c e),
)
step-passed c draining e sound =
    (drain-passed e ∙ sym (append-nil (passed e)), unfold drain schedule in ground arith)

pushed-cons : (k : Call) (ks : List Call) → pushed (k ∷ ks) ≡ pushed (k ∷ []) ++ pushed ks
unfolding pushed
pushed-cons (pushing content) ks = rw (append-nil content)
pushed-cons firing ks = refl
pushed-cons draining ks = refl

-- On a run that is neither cancelled nor failing, the chunks handed to `emit`, followed by what is
-- still queued, are exactly the text that was pushed, in order, whenever the timer fires.
pub calls-passed :
    (c : Config) (ks : List Call) (e : Emitter)
    → e.failure ≡ false
    → passed (calls c ks e) ≡ passed e ++ pushed ks
unfolding calls pushed
calls-passed c [] e sound = sym (append-nil (passed e))
calls-passed c (k ∷ ks) e sound =
    let (text, still) = step-passed c k e sound in
    calls-passed c ks _ still
    ∙ ap (λ t. t ++ pushed ks) text
    ∙ append_assoc (passed e) (pushed (k ∷ [])) (pushed ks)
    ∙ rw (pushed-cons k ks)
