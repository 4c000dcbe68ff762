-- ===== src/Runtime/Capacity.antt =====
-- `acquireCapacity` of gateway-runtime.js in memory (`acquireMemoryCapacity`): a queue of waiting
-- requests in front of a semaphore, for one namespace. A call registers its token, polls until it
-- is granted, times out or is aborted, and leaves the queue at the end.
pub mod Laws
pub mod Order
use magento2_chat_ai.JsMap
use magento2_chat_ai.JsNumber.{JsNumber, number_from_env}
use magento2_chat_ai.Prelude.{
  ℕ, ◌+◌, ◌-◌, ◌≡◌, Bool, true, false, ◌&&◌, Option, none, some, List, [], ◌∷◌, leb, ltb, ◌==◌,
  length, keep, if◌then◌else◌, ℕ_discrete,
}

pub record Gate : Type 0 where
  -- Tokens in the order of arrival, with the time at which each was queued.
  pub queue : List (ℕ × ℕ)
  -- Tokens with the end of their lease.
  pub semaphore : List (ℕ × ℕ)

pub record Options : Type 0 where
  pub concurrency : ℕ
  pub max_queue : ℕ
  pub queue_wait_ms : ℕ
  pub lease_ms : ℕ

-- The settings of `acquireCapacity`, clamped; `pollMs` only paces the loop.
unfoldable pub clamp_options : JsNumber → JsNumber → JsNumber → JsNumber → Options
unfolding number_from_env
clamp_options concurrency max_queue queue_wait_ms lease_ms = record {
  concurrency = number_from_env concurrency 32 1 10000;
  max_queue = number_from_env max_queue 200 0 100000;
  queue_wait_ms = number_from_env queue_wait_ms 30000 1000 300000;
  lease_ms = number_from_env lease_ms 90000 10000 600000;
}

pub data Error : Type 0 where
  queue_full aborted queue_timeout : Error

-- A poll grants the slot and reports how long the request waited, sleeps once more, or throws.
pub data Outcome : Type 0 where
  granted : ℕ → Outcome
  waiting : Outcome
  rejected : Error → Outcome

unfoldable pub cleanup : ℕ → Options → Gate → Gate
unfolding keep
cleanup now o g = record {
  queue = keep (λ q. leb (now - q.1) o.queue_wait_ms) g.queue;
  semaphore = keep (λ s. ltb now s.1) g.semaphore;
}

-- Up to the loop: `none` is QUEUE_FULL.
unfoldable pub register : ℕ → Options → ℕ → Gate → Option Error × Gate
unfolding cleanup
register now o token g =
    let g' = cleanup now o g in
    if leb o.max_queue (length g'.queue)
    then (some queue_full, g')
    else (none, record g' { queue = JsMap.set ℕ_discrete token now g'.queue })

-- `queue.keys().next().value === token`.
unfoldable pub is_first : ℕ → List (ℕ × ℕ) → Bool
is_first token [] = false
is_first token ((t, at) ∷ q) = t == token

-- The `finally` block.
unfoldable pub leave : ℕ → Gate → Gate
leave token g = record g { queue = JsMap.delete ℕ_discrete token g.queue }

unfoldable pub try_grant : ℕ → ℕ → Options → ℕ → Gate → Outcome × Gate
unfolding is_first leave
try_grant now started_at o token g =
    if is_first token g.queue && ltb (length g.semaphore) o.concurrency
    then (
      granted (now - started_at),
      record (leave token g) {
        semaphore = JsMap.set ℕ_discrete token (now + o.lease_ms) g.semaphore;
      },
    )
    else (waiting, g)

-- One round of the loop at time `now`; `stop` is `signal.aborted`, which also ends a sleep.
unfoldable pub poll : ℕ → Bool → ℕ → Options → ℕ → Gate → Outcome × Gate
unfolding cleanup try_grant leave
poll now stop started_at o token g =
    if ltb (now - started_at) o.queue_wait_ms
    then (if stop
        then (rejected aborted, leave token g)
        else try_grant now started_at o token (cleanup now o g))
    else (rejected queue_timeout, leave token g)

unfoldable pub renew_found : ℕ → ℕ → Option ℕ → Gate → Bool × Gate
renew_found until token none g = (false, g)
renew_found until token (some e) g =
    (true, record g { semaphore = JsMap.set ℕ_discrete token until g.semaphore })

unfoldable pub renew_capacity : ℕ → ℕ → JsNumber → Gate → Bool × Gate
unfolding renew_found number_from_env
renew_capacity now token lease_ms g =
    renew_found (now + number_from_env lease_ms 90000 10000 600000) token
      (JsMap.get ℕ_discrete token g.semaphore) g

unfoldable pub release_capacity : ℕ → Gate → Gate
release_capacity token g = record g { semaphore = JsMap.delete ℕ_discrete token g.semaphore }

-- `getCapacityMetrics` of this gate: leases that ran out are deleted, then both maps are counted.
unfoldable pub capacity_metrics : ℕ → Gate → (ℕ × ℕ) × Gate
unfolding keep
capacity_metrics now g =
    let live = keep (λ s. ltb now s.1) g.semaphore in
    ((length live, length g.queue), record g { semaphore = live })
