-- ===== src/Security/LeaseKeeper.antt =====
-- `installDistributedWebSocketLease` and `admitDistributedWebSocketConnection` of
-- websocket-security.js: a timer renews the lease of a socket until the socket closes.
use magento2_chat_ai.Prelude.{
  ℕ, ◌+◌, ◌≤◌, ◌≡◌, refl, Bool, true, false, not, ◌&&◌, List, [], ◌∷◌, arith, if◌then◌else◌,
}
use magento2_chat_ai.Security.Distributed.{Result, admitted, refused, threw}

pub data Renewal : Type 0 where
  renewed lease_lost unavailable : Renewal

pub record Keeper : Type 0 where
  pub renewing : Bool
  -- The interval timer runs, and the `close` listener is still to fire.
  pub timer : Bool
  pub started : ℕ
  pub finished : ℕ
  pub close_requests : ℕ
  pub releases : ℕ

pub data Event : Type 0 where
  tick : Event
  finish : Renewal → Event
  close : Event

abbrev pub installed : Keeper
installed = record {
  renewing = false;
  timer = true;
  started = 0;
  finished = 0;
  close_requests = 0;
  releases = 0;
}

unfoldable pub finish_renewal : Renewal → Keeper → Keeper
finish_renewal renewed k = record k { renewing = false; finished = k.finished + 1 }
finish_renewal lease_lost k = record k {
  renewing = false;
  finished = k.finished + 1;
  close_requests = k.close_requests + 1;
}
finish_renewal unavailable k = record k {
  renewing = false;
  finished = k.finished + 1;
  close_requests = k.close_requests + 1;
}

-- A renewal can finish only if one is under way.
unfoldable pub step : Event → Keeper → Keeper
unfolding finish_renewal
step tick k =
    if k.timer && not k.renewing then record k { renewing = true; started = k.started + 1 } else k
step (finish r) k = if k.renewing then finish_renewal r k else k
step close k = if k.timer then record k { timer = false; releases = k.releases + 1 } else k

pub run : List Event → Keeper → Keeper
run [] k = k
run (e ∷ es) k = run es (step e k)

pub record IsKept (k : Keeper) : Type 0 where
  pub single : k.started ≡ k.finished + (if k.renewing then 1 else 0)
  pub once : k.releases ≡ (if k.timer then 0 else 1)
  pub asked : k.close_requests ≤ k.finished

step-IsKept : (e : Event) (k : Keeper) → IsKept k → IsKept (step e k)
unfolding step
step-IsKept tick k v = ground arith
step-IsKept (finish renewed) k v = ground arith
step-IsKept (finish lease_lost) k v = ground arith
step-IsKept (finish unavailable) k v = ground arith
step-IsKept close k v = ground arith

run-keeps : (es : List Event) (k : Keeper) → IsKept k → IsKept (run es k)
unfolding run
run-keeps [] k v = v
run-keeps (e ∷ es) k v = run-keeps es (step e k) (step-IsKept e k v)

-- Over any series of ticks, answers and closes at most one renewal is under way, and the lease is
-- released exactly once the socket has closed, never twice.
pub run-IsKept : (es : List Event) → IsKept (run es installed)
run-IsKept es =
    run-keeps es installed (record { single = omega arith; once = refl; asked = omega arith })

-- What `admitDistributedWebSocketConnection` does with the result of `admit`.
pub data Effect : Type 0 where
  rejected_metric : Result → Effect
  close_socket : ℕ → Effect
  install_lease : Effect

unfoldable pub admit_distributed : Result → Bool × List Effect
admit_distributed (admitted g n) = (true, install_lease ∷ [])
admit_distributed (refused r) = (false, rejected_metric (refused r) ∷ close_socket 1013 ∷ [])
admit_distributed threw = (false, rejected_metric threw ∷ close_socket 1013 ∷ [])
