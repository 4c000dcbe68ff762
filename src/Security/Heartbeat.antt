-- ===== src/Security/Heartbeat.antt =====
-- `installWebSocketHeartbeat` of websocket-security.js.

use magento2_chat_ai.Prelude.{
  ℕ, ◌+◌, ◌≡◌, refl, Bool, true, false, ◌&&◌, List, [], ◌∷◌, map, arith, if◌then◌else◌,
}

-- A socket as the timer sees it. A pong sets `is_alive` again.
pub record Socket : Type 0 where
  pub is_alive : Bool
  pub terminated : Bool
  pub pings : ℕ

unfoldable pub beat : Socket → Socket
beat s =
    if s.is_alive
    then record s { is_alive = false; pings = s.pings + 1 }
    else record s { terminated = true }

-- The callback of the timer, over `wss.clients`.
unfoldable pub heartbeat : List Socket → List Socket
unfolding beat
heartbeat = map beat

pong : Bool → Socket → Socket
pong answered s = if answered then record s { is_alive = true } else s

-- The beats of one socket; each flag says whether a pong came in before that beat.
pub beats : List Bool → Socket → Socket
unfolding pong
beats [] s = s
beats (answered ∷ flags) s = beats flags (beat (pong answered s))

pub all_answered : List Bool → Bool
all_answered [] = true
all_answered (answered ∷ flags) = answered && all_answered flags

beats-terminated :
    (flags : List Bool) (s : Socket) → s.terminated ≡ true → (beats flags s).terminated ≡ true
unfolding beats beat
beats-terminated [] s h = h
beats-terminated (true ∷ flags) s h = beats-terminated flags _ h
beats-terminated (false ∷ flags) s h = beats-terminated flags _ (ground arith)

beats-silent :
    (flags : List Bool) (s : Socket)
    → s.is_alive ≡ false
    → s.terminated ≡ false
    → (beats flags s).terminated ≡ (if all_answered flags then false else true)
unfolding beats beat all_answered
beats-silent [] s h t = t
beats-silent (true ∷ flags) s h t = beats-silent flags _ refl t
beats-silent (false ∷ flags) s h t = beats-terminated flags _ (ground arith)

-- A socket that is alive at its first beat is terminated exactly when some later beat finds that no
-- pong came since the beat before.
pub beats-all_answered :
    (flags : List Bool) (first : Bool) (s : Socket)
    → s.is_alive ≡ true
    → s.terminated ≡ false
    → (beats (first ∷ flags) s).terminated ≡ (if all_answered flags then false else true)
unfolding beats beat
beats-all_answered flags true s h t = beats-silent flags _ refl t
beats-all_answered flags false s h t = beats-silent flags _ (ground arith) (ground arith)
