-- ===== src/Conversation/ChunkEmitter/Drain.antt =====
-- The queue of smooth-chunk-emitter.js runs empty.
use magento2_chat_ai.Prelude.{
  ℕ, zero, suc, ◌+◌, ◌≤◌, ◌<◌, ◌≡◌, refl, ap, ◌∙◌, ◌⊎◌, inl, inr, true, false, List, [], ◌∷◌, arith,
  length, if◌then◌else◌, Bool-cases,
}
use magento2_chat_ai.Conversation.ChunkEmitter.{
  Config, Emitter, fires, is_empty, settle_drains, schedule, emit_chunk, pump, step, take_loop,
  take_code_points, budget,
}

-- Firing the timer of a run that is neither cancelled nor failing.
pub fire_all : Config → ℕ → Emitter → Emitter
fire_all c zero e = e
fire_all c (suc n) e = fire_all c n (step c (fires false false) e)

length-rest-le : (limit count : ℕ) (cs : List ℕ) → length (take_loop limit count cs).1 ≤ length cs
unfolding take_loop
length-rest-le limit count [] = omega arith
length-rest-le limit count (c ∷ cs) = ground (arith, length-rest-le limit (count + 1) cs)

length-rest-lt :
    (limit : ℕ) (cs : List ℕ)
    → is_empty cs ≡ false
    → length (take_code_points cs limit).1 < length cs
unfolding take_code_points take_loop
length-rest-lt limit [] h = absurd (cc)
length-rest-lt limit (c ∷ cs) h = ground (arith, length-rest-le limit (0 + 1) cs)

-- Nothing is queued, nobody waits and no timer is set.
abbrev pub IsDrained : Emitter → Type 0
IsDrained e = (e.queue ≡ []) × (e.waiters ≡ 0) × (e.timer ≡ false)

empty-nil : (q : List ℕ) → is_empty q ≡ true → q ≡ []
empty-nil [] h = refl
empty-nil (x ∷ q) h = absurd (cc)

emit_chunk-progress :
    (chunk : List ℕ) (e : Emitter)
    → e.timer ≡ false
    → IsDrained (emit_chunk false chunk e)
      ⊎ (((emit_chunk false chunk e).timer ≡ true) × ((emit_chunk false chunk e).queue ≡ e.queue))
unfolding emit_chunk settle_drains schedule
emit_chunk-progress chunk e idle = ground (arith, empty-nil e.queue)

pub pump-progress :
    (c : Config) (e : Emitter)
    → IsDrained (pump c false false e)
      ⊎ (((pump c false false e).timer ≡ true)
          × (length (pump c false false e).queue < length e.queue))
unfolding pump settle_drains
pump-progress c e = elim (Bool-cases (is_empty e.queue)) [
  | inl idle ↦ ground (arith, empty-nil e.queue)
  | inr busy ↦
      let (chunk, remaining) = take_code_points e.queue (budget c (length e.queue)) in
      rw busy (
        shorter remaining (length-rest-lt (budget c (length e.queue)) e.queue busy)
          (emit_chunk false chunk (record e { timer = false; queue = remaining }))
          (emit_chunk-progress chunk (record e { timer = false; queue = remaining }) refl))
]
  where
    shorter :
        (remaining : List ℕ)
        → length remaining < length e.queue
        → (e' : Emitter) → IsDrained e' ⊎ ((e'.timer ≡ true) × (e'.queue ≡ remaining))
        → IsDrained e' ⊎ ((e'.timer ≡ true) × (length e'.queue < length e.queue))
    shorter remaining less e' (inl done) = inl done
    shorter remaining less e' (inr (set, same)) = inr (set, rw same less)

fire_all-idle : (c : Config) (n : ℕ) (e : Emitter) → e.timer ≡ false → fire_all c n e ≡ e
unfolding fire_all step
fire_all-idle c zero e idle = refl
fire_all-idle c (suc n) e idle =
    let same : (if e.timer then pump c false false e else e) ≡ e = ground arith in
    ap (fire_all c n) same ∙ fire_all-idle c n e idle

fire_all-suc :
    (c : Config) (n : ℕ) (e : Emitter)
    → e.timer ≡ true
    → fire_all c (suc n) e ≡ fire_all c n (pump c false false e)
unfolding fire_all step
fire_all-suc c n e t =
    let fired : (if e.timer then pump c false false e else e) ≡ pump c false false e =
      ground arith in
    ap (fire_all c n) fired

-- On a run that is neither cancelled nor failing and whose timer is set, the queue is empty and
-- nobody waits any more after as many timer events as there were characters, and one.
pub fire_all-IsDrained :
    (c : Config) (n : ℕ) (e : Emitter)
    → length e.queue < n
    → e.timer ≡ true
    → IsDrained (fire_all c n e)
fire_all-IsDrained c zero e h t = absurd (omega (arith, h))
fire_all-IsDrained c (suc n) e h t = rw (fire_all-suc c n e t) (elim (pump-progress c e) [
  | inl done ↦ rw (fire_all-idle c n (pump c false false e) done.2) done
  | inr (set, less) ↦ fire_all-IsDrained c n (pump c false false e) (omega (arith, less, h)) set
])
