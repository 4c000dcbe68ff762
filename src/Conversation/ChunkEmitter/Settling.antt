-- ===== src/Conversation/ChunkEmitter/Settling.antt =====
-- When the emitter of smooth-chunk-emitter.js answers those who wait for it to drain.
use magento2_chat_ai.Prelude.{
  ℕ, ◌<◌, ◌≡◌, refl, ◌∙◌, Bool, true, false, ◌||◌, List, [], ◌∷◌, ◌++◌, arith, length, Bool-cases,
  inl, inr,
}
use magento2_chat_ai.Conversation.ChunkEmitter.{
  Config, Emitter, Event, pushes, fires, drains, discards, is_empty, settle_drains, schedule,
  emit_chunk, pump, push, resolves, drain, discard, step, run, take_code_points, budget,
}

-- A timer is set whenever something is queued or someone waits.
pub record IsLive (e : Emitter) : Type 0 where
  pub queued : (is_empty e.queue || e.timer) ≡ true
  pub awaited : 0 < e.waiters → e.timer ≡ true

-- A cancelled `drain` is the one event that may break this.
abbrev pub Ordinary : List Event → Type 0
Ordinary [] = Unit {0}
Ordinary (drains true ∷ evs) = ⊥
Ordinary (ev ∷ evs) = Ordinary evs

emit_chunk-IsLive :
    (throws : Bool) (chunk : List ℕ) (e : Emitter) → IsLive (emit_chunk throws chunk e)
unfolding emit_chunk settle_drains schedule
emit_chunk-IsLive throws chunk e = ground arith

pump-IsLive :
    (c : Config) (cancelled throws : Bool) (e : Emitter) → IsLive (pump c cancelled throws e)
unfolding pump settle_drains
pump-IsLive c true throws e = ground arith
pump-IsLive c false throws e = elim (Bool-cases (is_empty e.queue)) [
  | inl idle ↦ rw idle (record { queued = rw idle; awaited = λ h. absurd (omega (arith, h)) })
  | inr busy ↦
      let (chunk, remaining) = take_code_points e.queue (budget c (length e.queue)) in
      rw busy (emit_chunk-IsLive throws chunk (record e { timer = false; queue = remaining }))
]

push-IsLive :
    (c : Config) (cancelled throws : Bool) (content : List ℕ) (e : Emitter)
    → IsLive e
    → IsLive (push c cancelled throws content e)
unfolding push
push-IsLive c cancelled throws content e v =
    ground (arith, pump-IsLive c cancelled throws (record e { queue = e.queue ++ content }))

drain-IsLive : (e : Emitter) → IsLive e → IsLive (drain false e).1
unfolding drain schedule
drain-IsLive e v = ground arith

step-IsLive :
    (c : Config) (ev : Event) (evs : List Event) (e : Emitter)
    → Ordinary (ev ∷ evs)
    → IsLive e
    → IsLive (step c ev e)
unfolding step
step-IsLive c (pushes cancelled throws content) evs e o v =
    push-IsLive c cancelled throws content e v
step-IsLive c (fires cancelled throws) evs e o v = ground (arith, pump-IsLive c cancelled throws e)
step-IsLive c (drains true) evs e o v = elim o [ ]
step-IsLive c (drains false) evs e o v = drain-IsLive e v
step-IsLive c discards evs e o v = unfold discard settle_drains in ground arith

Ordinary-rest : (ev : Event) (evs : List Event) → Ordinary (ev ∷ evs) → Ordinary evs
Ordinary-rest (pushes cancelled throws content) evs o = o
Ordinary-rest (fires cancelled throws) evs o = o
Ordinary-rest (drains true) evs o = elim o [ ]
Ordinary-rest (drains false) evs o = o
Ordinary-rest discards evs o = o

-- As long as `drain` is not called on a cancelled run: after any series of calls and timer events,
-- failures of `emit` and cancellations included, a timer is set whenever text is queued or a caller
-- of `drain` still waits.
pub run-IsLive :
    (c : Config) (evs : List Event) (e : Emitter) → Ordinary evs → IsLive e → IsLive (run c evs e)
unfolding run
run-IsLive c [] e o v = v
run-IsLive c (ev ∷ evs) e o v =
    run-IsLive c evs _ (Ordinary-rest ev evs o) (step-IsLive c ev evs e o v)

-- The run stays cancelled, and nobody discards.
abbrev pub Cancelled : List Event → Type 0
Cancelled [] = Unit {0}
Cancelled (pushes true throws content ∷ evs) = Cancelled evs
Cancelled (fires true throws ∷ evs) = Cancelled evs
Cancelled (drains true ∷ evs) = Cancelled evs
Cancelled (ev ∷ evs) = ⊥

step-stranded :
    (c : Config) (ev : Event) (e : Emitter)
    → e.timer ≡ false
    → Cancelled (ev ∷ [])
    → ((step c ev e).waiters ≡ e.waiters) × ((step c ev e).timer ≡ false)
unfolding step push drain
step-stranded c (pushes true throws content) e idle x = ground arith
step-stranded c (pushes false throws content) e idle x = elim x [ ]
step-stranded c (fires true throws) e idle x = ground arith
step-stranded c (fires false throws) e idle x = elim x [ ]
step-stranded c (drains true) e idle x = ground arith
step-stranded c (drains false) e idle x = elim x [ ]
step-stranded c discards e idle x = elim x [ ]

Cancelled-cons :
    (ev : Event) (evs : List Event) → Cancelled (ev ∷ evs) → Cancelled (ev ∷ []) × Cancelled evs
Cancelled-cons (pushes true throws content) evs x = (tt, x)
Cancelled-cons (pushes false throws content) evs x = elim x [ ]
Cancelled-cons (fires true throws) evs x = (tt, x)
Cancelled-cons (fires false throws) evs x = elim x [ ]
Cancelled-cons (drains true) evs x = (tt, x)
Cancelled-cons (drains false) evs x = elim x [ ]
Cancelled-cons discards evs x = elim x [ ]

stranded :
    (c : Config) (evs : List Event) (e : Emitter)
    → e.timer ≡ false
    → Cancelled evs
    → (run c evs e).waiters ≡ e.waiters
unfolding run
stranded c [] e idle x = refl
stranded c (ev ∷ evs) e idle x =
    let (now, rest) = Cancelled-cons ev evs x in
    let (same, still) = step-stranded c ev e idle now in stranded c evs _ still rest ∙ same

-- A `drain` on a cancelled run clears the timer and answers only itself: whoever waited before it
-- is answered by no later call or event while the run stays cancelled and nobody discards.
pub drain_strands :
    (c : Config) (evs : List Event) (e : Emitter)
    → e.failure ≡ false
    → Cancelled evs
    → ((drain true e).0 ≡ resolves) × ((run c evs (drain true e).1).waiters ≡ e.waiters)
drain_strands c evs e sound x =
    let cleared : drain true e ≡ (resolves, record e { queue = []; timer = false }) =
      unfold drain in ground arith in
    rw cleared (refl, stranded c evs (record e { queue = []; timer = false }) refl x)
