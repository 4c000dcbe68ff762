-- ===== src/Orchestration/Turns/Emission.antt =====
-- openai-compatible-orchestrator.js over smooth-chunk-emitter.js: how a text is handed on in chunks.
use magento2_chat_ai.Conversation.ChunkEmitter.{
  Config, Emitter, created, is_empty, push, drain, pump, settle_drains, emit_chunk, schedule,
}
use magento2_chat_ai.Conversation.ChunkEmitter.Drain.{pump-progress}
use magento2_chat_ai.Conversation.ChunkEmitter.Flow.{
  joined, passed, pump-passed, pump-failure, drain-passed,
}
use magento2_chat_ai.Orchestration.Turns.{
  ToolFlow, Run, smooth_config, code_points, await_drain, emit_text,
}
use magento2_chat_ai.Prelude.{
  ℕ, zero, suc, ◌+◌, ◌-◌, ◌*◌, ◌≤◌, ◌<◌, ◌≡◌, subst, refl, sym, ap, ◌∙◌, Bool, true, false, ◌&&◌,
  ◌⊎◌, inl, inr, List, [], ◌∷◌, ◌++◌, append-nil, length, Bool-cases, arith,
}
use magento2_chat_ai.Text.{Text, between, filled}

-- Some chunks are a front part of a text.
abbrev pub AreFront : List ℕ → List (List ℕ) → Type 0
AreFront text chunks = (rest : List ℕ) × (joined chunks ++ rest ≡ text)

-- All of it was handed on, or the run was cancelled at an earlier question, or `emit` threw.
abbrev pub Settled : Run → List ℕ → Emitter × ℕ → Type 0
Settled run text (e, asked) =
    ((joined e.emitted ≡ text) × (e.failure ≡ false))
    ⊎ (((m : ℕ) × (m < asked)
          × (run.is_cancelled m ≡ true)
          × (e.failure ≡ false)
          × AreFront text e.emitted)
        ⊎ ((e.failure ≡ true) × AreFront text e.emitted))

-- No character is lost so far, and as long as some are queued the timer is set.
abbrev Flows : List ℕ → Emitter → Type 0
Flows text e = (passed e ≡ text) × (e.failure ≡ false) × ((e.timer ≡ true) ⊎ (e.queue ≡ []))

front : (text : List ℕ) (e : Emitter) → Flows text e → AreFront text e.emitted
unfolding passed
front text e f = (e.queue, f.0)

whole : (text : List ℕ) (e : Emitter) → Flows text e → e.queue ≡ [] → joined e.emitted ≡ text
unfolding passed
whole text e f none =
    sym (append-nil (joined e.emitted))
    ∙ ap (λ (q : List ℕ). joined e.emitted ++ q) (sym none)
    ∙ f.0

-- A timer event that finds the run cancelled.
pump-cancelled :
    (c : Config) (throws : Bool) (e : Emitter)
    → ((pump c true throws e).timer ≡ false)
      × ((pump c true throws e).emitted ≡ e.emitted)
      × ((pump c true throws e).failure ≡ e.failure)
unfolding pump settle_drains
pump-cancelled c throws e = (refl, refl, refl)

-- One in which `emit` throws, if there is something to emit.
pump-thrown :
    (c : Config) (e : Emitter)
    → is_empty e.queue ≡ false
    → ((pump c false true e).timer ≡ false)
      × ((pump c false true e).emitted ≡ e.emitted)
      × ((pump c false true e).failure ≡ true)
unfolding pump settle_drains emit_chunk
pump-thrown c e h = rw h (refl, refl, refl)

pump-idle :
    (c : Config) (throws : Bool) (e : Emitter)
    → is_empty e.queue ≡ true
    → pump c false throws e ≡ pump c false false e
unfolding pump
pump-idle c throws e h = rw h refl

-- One that finds neither.
pump-Flows :
    (c : Config) (text : List ℕ) (e : Emitter)
    → passed e ≡ text
    → e.failure ≡ false
    → Flows text (pump c false false e)
pump-Flows c text e all fine = (
  pump-passed c e ∙ all,
  pump-failure c e ∙ fine,
  elim (pump-progress c e) [ inl done ↦ inr done.0 | inr (set, less) ↦ inl set ],
)

pump-shorter :
    (c : Config) (e : Emitter)
    → (pump c false false e).timer ≡ true
    → length (pump c false false e).queue < length e.queue
pump-shorter c e set = elim (pump-progress c e) [
  | inl done ↦ absurd (contradiction (sym set ∙ done.2))
  | inr (again, less) ↦ less
]
  where
    contradiction : true ≡ false → ⊥
    contradiction k = cc

module _ {S P : Type 0} (flow : ToolFlow S P) (run : Run) (text : List ℕ) where
  await-idle :
      (left asked : ℕ) (e : Emitter)
      → e.timer ≡ false
      → await_drain flow run left asked e ≡ (e, asked)
  unfolding await_drain
  await-idle zero asked e h = refl
  await-idle (suc left) asked e h = rw h refl

  Settled-idle :
      (left asked : ℕ) (e : Emitter)
      → e.timer ≡ false
      → Settled run text (e, asked)
      → Settled run text (await_drain flow run left asked e)
  Settled-idle left asked e h s = rw (await-idle left asked e h) s

  Flows-idle :
      (asked : ℕ) (e : Emitter) → Flows text e → e.timer ≡ false → Settled run text (e, asked)
  Flows-idle asked e f h = elim f.2 [
    | inl set ↦ absurd (contradiction (sym h ∙ set))
    | inr none ↦ inl (whole text e f none, f.1)
  ]
    where
      contradiction : false ≡ true → ⊥
      contradiction k = cc

  -- A timer event of a run that is not cancelled, given what follows it.
  next-Settled :
      (left asked : ℕ) (e : Emitter) (throws : Bool)
      → Flows text e
      → Settled run text (await_drain flow run left (suc asked) (pump smooth_config false false e))
      → Settled run text (await_drain flow run left (suc asked) (pump smooth_config false throws e))
  next-Settled left asked e false f later = later
  next-Settled left asked e true f later = elim (Bool-cases (is_empty e.queue)) [
    | inl none ↦ rw (pump-idle smooth_config true e none) later
    | inr some_left ↦
        let (timer, emitted, failure) = pump-thrown smooth_config e some_left in
        Settled-idle left (suc asked) (pump smooth_config false true e) timer
          (inr (inr (failure, subst (AreFront text) (sym emitted) (front text e f))))
  ]

  await-Settled :
      (left asked : ℕ) (e : Emitter)
      → Flows text e
      → (e.timer ≡ true → length e.queue < left)
      → Settled run text (await_drain flow run left asked e)
  unfolding await_drain
  await-Settled zero asked e f h = elim (Bool-cases e.timer) [
    | inl set ↦ absurd (omega (h set, arith))
    | inr idle ↦ Flows-idle asked e f idle
  ]
  await-Settled (suc left) asked e f h = elim (Bool-cases e.timer) [
    | inr idle ↦ rw idle (Flows-idle asked e f idle)
    | inl set ↦ rw set (elim (Bool-cases (run.is_cancelled asked)) [
      | inl c ↦
          let throws = run.emit_throws asked in
          let (timer, emitted, failure) = pump-cancelled smooth_config throws e in
          rw c (
            Settled-idle left (suc asked) (pump smooth_config true throws e) timer (
              inr (
                inl (
                  asked,
                  omega arith,
                  c,
                  failure ∙ f.1,
                  subst (AreFront text) (sym emitted) (front text e f),
                ))))
      | inr c ↦ rw c (
          next-Settled left asked e (run.emit_throws asked) f (
            await-Settled left (suc asked) (pump smooth_config false false e)
              (pump-Flows smooth_config text e f.0 f.1)
              (λ again. omega (pump-shorter smooth_config e again, h set, arith))))
    ])
  ]

-- An emitter that has got a text and nothing else.
abbrev given : List ℕ → Emitter
given text = record created { queue = text }

given-passed : (text : List ℕ) → passed (given text) ≡ text
unfolding passed joined
given-passed text = refl

push-given :
    (c : Config) (throws : Bool) (text : List ℕ)
    → is_empty text ≡ false
    → push c false throws text created ≡ pump c false throws (given text)
unfolding push
push-given c throws text h = rw h refl

push-cancelled :
    (c : Config) (throws : Bool) (text : List ℕ) → push c true throws text created ≡ created
unfolding push
push-cancelled c throws text = refl

drain-failed : (c : Bool) (e : Emitter) → e.failure ≡ true → (drain c e).1 ≡ e
unfolding drain
drain-failed c e h = rw h refl

drain-Flows :
    (text : List ℕ) (e : Emitter)
    → Flows text e
    → Flows text (drain false e).1 × ((drain false e).1.queue ≡ e.queue)
drain-Flows text e f =
    let kept : ((drain false e).1.failure ≡ e.failure) × ((drain false e).1.queue ≡ e.queue) =
      unfold drain schedule in ground arith in
    (
      (
        drain-passed e ∙ f.0,
        kept.0 ∙ f.1,
        elim f.2 [
          | inl set ↦ inl (unfold drain schedule in ground (arith, set, f.1))
          | inr none ↦ inr (kept.1 ∙ none)
        ],
      ),
      kept.1,
    )

length-back-le : (xs ys : List ℕ) → length ys ≤ length (xs ++ ys)
length-back-le [] ys = omega arith
length-back-le (x ∷ xs) ys = omega (length-back-le xs ys, arith)

queued-le : (text : List ℕ) (e : Emitter) → Flows text e → length e.queue ≤ length text
unfolding passed
queued-le text e f = omega (length-back-le (joined e.emitted) e.queue, ap length f.0, arith)

module _ {S P : Type 0} (flow : ToolFlow S P) (run : Run) (text : List ℕ) (asked : ℕ)
    (some_text : is_empty text ≡ false) where
  -- The emitter that `await_drain` starts from.
  start : Bool → Bool → Emitter
  start cancelled throws = (drain cancelled (push smooth_config cancelled throws text created)).1

  start-Settled :
      (throws : Bool)
      → Settled run text (await_drain flow run (suc (length text)) (suc asked) (start false throws))
  unfolding start
  start-Settled throws =
      subst
        (λ (e : Emitter).
          Settled run text (await_drain flow run (suc (length text)) (suc asked) (drain false e).1))
        (sym (push-given smooth_config throws text some_text)) (by_throw throws)
    where
      by_throw :
          (throws' : Bool)
          → Settled run text (
              await_drain flow run
                (suc (length text))
                (suc asked)
                (drain false (pump smooth_config false throws' (given text))).1)
      by_throw false =
          let e = pump smooth_config false false (given text) in
          let (f, same) =
            drain-Flows text e
              (pump-Flows smooth_config text (given text) (given-passed text) refl) in
          await-Settled flow run text (suc (length text)) (suc asked) (drain false e).1 f
            (λ set. omega (queued-le text (drain false e).1 f, arith))
      by_throw true =
          let (timer, emitted, failure) = pump-thrown smooth_config (given text) some_text in
          rw (drain-failed false (pump smooth_config false true (given text)) failure) (
            Settled-idle flow run text (suc (length text)) (suc asked)
              (pump smooth_config false true (given text)) timer
              (inr
                (inr (failure, subst (AreFront text) (sym emitted) (text, unfold joined in refl)))))

  -- The drain settles within as many timer events as there are characters, and one: all of the text
  -- was handed on, or the run was cancelled, or `emit` threw.
  emission-Settled :
      (cancelled throws : Bool)
      → run.is_cancelled asked ≡ cancelled
      → Settled run text
          (await_drain flow run (suc (length text)) (suc asked) (start cancelled throws))
  emission-Settled false throws c = start-Settled throws
  emission-Settled true throws c =
      Settled-idle flow run text (suc (length text)) (suc asked) (start true throws)
        (unfold start drain push in refl)
        (inr (
          inl (
            asked,
            omega arith,
            c,
            unfold start drain push in refl,
            (text, unfold start drain push joined in refl),
          )))

pub emit-Settled :
    {S P : Type 0} (flow : ToolFlow S P) (run : Run) (text : Text) (asked : ℕ)
    → is_empty (code_points text) ≡ false
    → Settled run (code_points text) (emit_text flow run text asked)
unfolding emit_text
emit-Settled flow run text asked h =
    unfold start in
    emission-Settled flow run (code_points text) asked h (run.is_cancelled asked)
      (run.emit_throws asked) refl

pub code_points-filled : (text : Text) → filled text ≡ true → is_empty (code_points text) ≡ false
unfolding filled code_points
code_points-filled [] h = cc
code_points-filled (c ∷ []) h = refl
code_points-filled (c ∷ d ∷ s) h = by_pair (between 55296 c 56319 && between 56320 d 57343)
  where
    by_pair :
        (b : Bool)
        → is_empty (elim b as (λ x. List ℕ) [
          | true ↦ ((c - 55296) * 1024 + (d - 56320) + 65536) ∷ code_points s
          | false ↦ c ∷ code_points (d ∷ s)
        ])
          ≡ false
    by_pair true = refl
    by_pair false = refl
