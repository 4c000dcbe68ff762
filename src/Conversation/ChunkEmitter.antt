-- ===== src/Conversation/ChunkEmitter.antt =====
-- `createSmoothChunkEmitter` of smooth-chunk-emitter.js. Text is a list of code points. The timer's
-- callback is an event of its own; whether the run is cancelled and whether `emit` throws are
-- inputs of each call.
pub mod Flow
pub mod Drain
pub mod Settling
use magento2_chat_ai.Prelude.{
  ℕ, zero, suc, ◌+◌, ◌-◌, ◌/◌, min, max, Bool, true, false, ◌||◌, ◌&&◌, not, List, [], ◌∷◌, ◌++◌,
  leb, length, if◌then◌else◌,
}

pub record Config : Type 0 where
  pub target_frames : ℕ
  pub min_chars : ℕ
  pub max_chars : ℕ

pub record Emitter : Type 0 where
  pub queue : List ℕ
  -- Whether a timer is set.
  pub timer : Bool
  -- Whether `emit` has thrown.
  pub failure : Bool
  -- Callers of `drain` that wait, and those that were answered.
  pub waiters : ℕ
  pub resolved : ℕ
  pub rejected : ℕ
  -- The chunks handed to `emit`, in order.
  pub emitted : List (List ℕ)

abbrev pub created : Emitter
created = record {
  queue = [];
  timer = false;
  failure = false;
  waiters = 0;
  resolved = 0;
  rejected = 0;
  emitted = [];
}

-- The loop of `takeCodePoints` after `count` characters: what it takes, and the rest.
unfoldable pub take_loop : ℕ → ℕ → List ℕ → List ℕ × List ℕ
take_loop limit count [] = ([], [])
take_loop limit count (c ∷ cs) =
    let (taken, rest) = take_loop limit (count + 1) cs in
    if leb limit (count + 1) then (c ∷ [], cs) else (c ∷ taken, rest)

unfoldable pub take_code_points : List ℕ → ℕ → List ℕ × List ℕ
unfolding take_loop
take_code_points value limit = take_loop limit 0 value

abbrev pub is_empty : List ℕ → Bool
is_empty [] = true
is_empty (c ∷ cs) = false

unfoldable pub settle_drains : Emitter → Emitter
settle_drains e = record e {
  waiters = 0;
  resolved = if e.failure then e.resolved else e.resolved + e.waiters;
  rejected = if e.failure then e.rejected + e.waiters else e.rejected;
}

unfoldable pub schedule : Emitter → Emitter
schedule e = if e.timer || is_empty e.queue then e else record e { timer = true }

unfoldable pub budget : Config → ℕ → ℕ
budget c backlog_size =
    let frames = max 1 c.target_frames in
    max c.min_chars (min c.max_chars ((backlog_size + (frames - 1)) / frames))

-- From `try` on: the chunk is out of the queue already.
unfoldable pub emit_chunk : Bool → List ℕ → Emitter → Emitter
unfolding settle_drains schedule
emit_chunk throws chunk e =
    if throws
    then settle_drains (record e { failure = true; queue = [] })
    else let e' = record e { emitted = e.emitted ++ chunk ∷ [] } in
      if is_empty e'.queue then settle_drains e' else schedule e'

unfoldable pub pump : Config → Bool → Bool → Emitter → Emitter
unfolding settle_drains emit_chunk
pump c cancelled throws e =
    let e' = record e { timer = false } in
    if cancelled
    then settle_drains (record e' { queue = [] })
    else if is_empty e.queue
    then settle_drains e'
    else let (chunk, remaining) = take_code_points e.queue (budget c (length e.queue)) in
      emit_chunk throws chunk (record e' { queue = remaining })

-- `push`. After a failure it throws and changes nothing.
unfoldable pub push : Config → Bool → Bool → List ℕ → Emitter → Emitter
unfolding pump
push c cancelled throws content e =
    if e.failure || (cancelled || is_empty content)
    then e
    else let e' = record e { queue = e.queue ++ content } in
      if e'.timer then e' else pump c cancelled throws e'

-- How the promise of `drain` stands when the call returns.
pub data Promise : Type 0 where
  resolves rejects pending : Promise

unfoldable pub drain : Bool → Emitter → Promise × Emitter
unfolding schedule
drain cancelled e =
    if e.failure
    then (rejects, e)
    else if cancelled
    then (resolves, record e { queue = []; timer = false })
    else if is_empty e.queue && not e.timer
    then (resolves, e)
    else (pending, schedule (record e { waiters = e.waiters + 1 }))

unfoldable pub discard : Emitter → Emitter
unfolding settle_drains
discard e = settle_drains (record e { queue = []; timer = false })

pub data Event : Type 0 where
  pushes : Bool → Bool → List ℕ → Event
  fires : Bool → Bool → Event
  drains : Bool → Event
  discards : Event

-- The timer fires only if it is set.
unfoldable pub step : Config → Event → Emitter → Emitter
step c (pushes cancelled throws content) e = push c cancelled throws content e
step c (fires cancelled throws) e = if e.timer then pump c cancelled throws e else e
step c (drains cancelled) e = (drain cancelled e).1
step c discards e = discard e

unfoldable pub run : Config → List Event → Emitter → Emitter
run c [] e = e
run c (ev ∷ evs) e = run c evs (step c ev e)
