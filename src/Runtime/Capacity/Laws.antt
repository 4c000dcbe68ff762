-- ===== src/Runtime/Capacity/Laws.antt =====
-- Bounds and ends of the capacity queue of gateway-runtime.js.
use magento2_chat_ai.JsMap
use magento2_chat_ai.JsNumber.{JsNumber}
use magento2_chat_ai.Prelude.{
  ℕ, ◌+◌, ◌-◌, ◌≤◌, ◌<◌, ◌≡◌, ◌≢◌, inl, inr, Bool, false, none, List, [], ◌∷◌, arith, Option-cases,
  leb, ltb, ℕ_discrete, length, length-keep-le,
}
use magento2_chat_ai.Runtime.Capacity.{
  Gate, Options, waiting, cleanup, register, leave, try_grant, poll, renew_capacity,
  release_capacity, capacity_metrics,
}

pub data Event : Type 0 where
  registers : ℕ → ℕ → Event
  polls : ℕ → Bool → ℕ → ℕ → Event
  renews : ℕ → ℕ → JsNumber → Event
  releases : ℕ → Event
  measures : ℕ → Event

unfoldable pub apply : Options → Event → Gate → Gate
apply o (registers now token) g = (register now o token g).1
apply o (polls now stop started_at token) g = (poll now stop started_at o token g).1
apply o (renews now token lease_ms) g = (renew_capacity now token lease_ms g).1
apply o (releases token) g = release_capacity token g
apply o (measures now) g = (capacity_metrics now g).1

unfoldable pub run : Options → List Event → Gate → Gate
run o [] g = g
run o (e ∷ es) g = run o es (apply o e g)

pub record IsBounded (o : Options) (g : Gate) : Type 0 where
  pub served : length g.semaphore ≤ o.concurrency
  pub queued : length g.queue ≤ o.max_queue

cleanup-IsBounded :
    (now : ℕ) (o : Options) (g : Gate) → IsBounded o g → IsBounded o (cleanup now o g)
unfolding cleanup
cleanup-IsBounded now o g b = record {
  served = omega (arith, length-keep-le (λ s. ltb now s.1) g.semaphore);
  queued = omega (arith, length-keep-le (λ q. leb (now - q.1) o.queue_wait_ms) g.queue);
}

leave-IsBounded : (token : ℕ) (o : Options) (g : Gate) → IsBounded o g → IsBounded o (leave token g)
unfolding leave
leave-IsBounded token o g b = record {
  served = b.served;
  queued = omega (arith, JsMap.length-delete-le ℕ_discrete token g.queue);
}

register-IsBounded :
    (now : ℕ) (o : Options) (token : ℕ) (g : Gate)
    → IsBounded o g
    → IsBounded o (register now o token g).1
unfolding register
register-IsBounded now o token g b = ground (
  arith,
  cleanup-IsBounded now o g b,
  JsMap.length-set-le ℕ_discrete token now (cleanup now o g).queue,
)

try_grant-IsBounded :
    (now started_at : ℕ) (o : Options) (token : ℕ) (g : Gate)
    → IsBounded o g
    → IsBounded o (try_grant now started_at o token g).1
unfolding try_grant
try_grant-IsBounded now started_at o token g b = ground (
  arith,
  leave-IsBounded token o g b,
  JsMap.length-set-le ℕ_discrete token (now + o.lease_ms) g.semaphore,
)

poll-IsBounded :
    (now : ℕ) (stop : Bool) (started_at : ℕ) (o : Options) (token : ℕ) (g : Gate)
    → IsBounded o g
    → IsBounded o (poll now stop started_at o token g).1
unfolding poll
poll-IsBounded now stop started_at o token g b = ground (
  arith,
  leave-IsBounded token o g b,
  try_grant-IsBounded now started_at o token (cleanup now o g) (cleanup-IsBounded now o g b),
)

renew-IsBounded :
    (now token : ℕ) (lease_ms : JsNumber) (o : Options) (g : Gate)
    → IsBounded o g
    → IsBounded o (renew_capacity now token lease_ms g).1
unfolding renew_capacity
renew-IsBounded now token lease_ms o g b =
    elim (Option-cases (JsMap.get ℕ_discrete token g.semaphore)) [
      | inl lost ↦ rw lost b
      | inr (e, found) ↦ rw found (record {
        served = omega (arith, JsMap.length-set_present ℕ_discrete token _ e _ found);
        queued = b.queued;
      })
    ]

-- Whatever calls are made with the same settings, never more requests are served than the
-- concurrency allows, and never more wait than the queue may hold.
pub run_gate-IsBounded :
    (o : Options) (es : List Event) (g : Gate) → IsBounded o g → IsBounded o (run o es g)
unfolding run apply release_capacity capacity_metrics
run_gate-IsBounded o [] g b = b
run_gate-IsBounded o (registers now token ∷ es) g b =
    run_gate-IsBounded o es _ (register-IsBounded now o token g b)
run_gate-IsBounded o (polls now stop started_at token ∷ es) g b =
    run_gate-IsBounded o es _ (poll-IsBounded now stop started_at o token g b)
run_gate-IsBounded o (renews now token lease_ms ∷ es) g b =
    run_gate-IsBounded o es _ (renew-IsBounded now token lease_ms o g b)
run_gate-IsBounded o (releases token ∷ es) g b = run_gate-IsBounded o es _ (record {
  served = omega (arith, JsMap.length-delete-le ℕ_discrete token g.semaphore);
  queued = b.queued;
})
run_gate-IsBounded o (measures now ∷ es) g b = run_gate-IsBounded o es _ (record {
  served = omega (arith, length-keep-le (λ s. ltb now s.1) g.semaphore);
  queued = b.queued;
})

-- A poll sleeps only before the deadline of a request that was not aborted, so that no call polls on
-- after its deadline; and when it does not sleep, the request is no longer in the queue.
pub poll_ends :
    (now : ℕ) (stop : Bool) (started_at : ℕ) (o : Options) (token : ℕ) (g : Gate)
    → ((poll now stop started_at o token g).0 ≡ waiting
        → (now - started_at < o.queue_wait_ms) × (stop ≡ false))
      × ((poll now stop started_at o token g).0 ≢ waiting
          → JsMap.get ℕ_discrete token (poll now stop started_at o token g).1.queue ≡ none)
unfolding poll try_grant leave
poll_ends now stop started_at o token g =
    let q = (cleanup now o g).queue in
    (
      λ h. ground (arith, h),
      λ h. ground (
        arith,
        h,
        JsMap.get-delete_self ℕ_discrete token g.queue,
        JsMap.get-delete_self ℕ_discrete token q,
      ),
    )
