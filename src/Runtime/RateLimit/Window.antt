-- ===== src/Runtime/RateLimit/Window.antt =====
-- What one counter of gateway-runtime.js admits within a window, and when it admits again.
use magento2_chat_ai.JsMap
use magento2_chat_ai.Prelude.{
  ℕ, ◌+◌, ◌-◌, ◌≤◌, ◌<◌, ◌≡◌, ◌≢◌, ltb, true, false, none, some, List, [], ◌∷◌, if◌then◌else◌,
  arith, Option-cases, Bool-cases, ◌∙◌, refl, leb, inl, inr,
}
use magento2_chat_ai.Runtime.RateLimit.{Record, Rates, fresh, verdict, settle, write_back, consume}

module _ {K : Type 0} (dec : Discrete K) (limit window : ℕ) (key : K) where
  -- What a series of requests `(now, amount)` on one counter is granted in all.
  unfoldable pub granted : List (ℕ × ℕ) → Rates K → ℕ
  granted [] m = 0
  granted ((now, amount) ∷ requests) m =
      let (a, m') = consume dec now limit window amount key m in
      (if a.allowed then amount else 0) + granted requests m'

-- All requests come before `until`.
abbrev pub Before : ℕ → List (ℕ × ℕ) → Type 0
Before until [] = Unit {0}
Before until ((now, amount) ∷ requests) = (now < until) × Before until requests

-- What a counter that stands at `count` still admits of `amount`.
abbrev room : ℕ → ℕ → ℕ → ℕ
room limit count amount = if ltb limit (count + amount) then 0 else amount

-- All requests come at `start` or later, and before `until`.
abbrev pub Within : ℕ → ℕ → List (ℕ × ℕ) → Type 0
Within start until [] = Unit {0}
Within start until ((now, amount) ∷ requests) =
    (start ≤ now) × (now < until) × Within start until requests

Within-Before :
    (start until later : ℕ) (requests : List (ℕ × ℕ))
    → until ≤ later
    → Within start until requests
    → Before later requests
Within-Before start until later [] h w = tt
Within-Before start until later ((now, amount) ∷ requests) h w =
    (omega (arith, w.1), Within-Before start until later requests h w.2)

pub fresh-running :
    (now window : ℕ) (r : Record) → now < r.expires_at → fresh now window (some r) ≡ r
unfolding fresh
fresh-running now window r live = ground arith

module _ {K : Type 0} (dec : Discrete K) (limit window : ℕ) (key : K) where
  get-settle :
      (amount : ℕ) (r old : Record) (m : Rates K)
      → JsMap.get dec key (settle dec limit amount key r (some old) m)
        ≡ some (record { count = r.count + room limit r.count amount; expires_at = r.expires_at })
  unfolding settle
  get-settle amount r old m = elim (Bool-cases (ltb limit (r.count + amount))) [
    | inl over ↦ rw over (JsMap.get-set_self dec key r m ∙ ground arith)
    | inr fits ↦ rw fits (JsMap.get-set_self dec key _ m)
  ]

  -- One call on a counter that is still running.
  consume-running :
      (now amount : ℕ) (m : Rates K) (r : Record)
      → JsMap.get dec key m ≡ some r
      → now < r.expires_at
      → (JsMap.get dec key (consume dec now limit window amount key m).1
          ≡ some
              (record { count = r.count + room limit r.count amount; expires_at = r.expires_at }))
        × ((if (consume dec now limit window amount key m).0.allowed then amount else 0)
            ≡ room limit r.count amount)
  unfolding verdict consume
  consume-running now amount m r e live =
      rw (e, fresh-running now window r live) (get-settle amount r r m, ground arith)

  -- An admitted call stores what it counted, whether or not the counter was there.
  pub get-consume_fits :
      (now amount : ℕ) (m : Rates K)
      → (fresh now window (JsMap.get dec key m)).count + amount ≤ limit
      → (JsMap.get dec key (consume dec now limit window amount key m).1
          ≡ some (record {
            count = (fresh now window (JsMap.get dec key m)).count + amount;
            expires_at = (fresh now window (JsMap.get dec key m)).expires_at;
          }))
        × ((consume dec now limit window amount key m).0.allowed ≡ true)
  unfolding verdict consume settle
  get-consume_fits now amount m fits =
      let r = fresh now window (JsMap.get dec key m) in
      let inside : ltb limit (r.count + amount) ≡ false = ground arith in
      rw inside (JsMap.get-set_self dec key _ m, refl)

  granted-running :
      (requests : List (ℕ × ℕ)) (m : Rates K) (r : Record)
      → JsMap.get dec key m ≡ some r
      → Before r.expires_at requests
      → r.count ≤ limit
      → r.count + granted dec limit window key requests m ≤ limit
  unfolding granted
  granted-running [] m r e before within = omega arith
  granted-running ((now, amount) ∷ requests) m r e before within =
      let (stored, given) = consume-running now amount m r e before.0 in
      let rest = granted-running requests _ _ stored before.1 (ground arith) in
      rw given (omega (arith, rest))

  granted-missing :
      (start : ℕ) (requests : List (ℕ × ℕ)) (m : Rates K)
      → JsMap.get dec key m ≡ none
      → Within start (start + window) requests
      → granted dec limit window key requests m ≤ limit
  unfolding granted consume verdict settle fresh
  granted-missing start [] m e within = omega arith
  granted-missing start ((now, amount) ∷ requests) m e within =
      elim (Bool-cases (ltb limit (0 + amount))) [
        | inl over ↦ rw (e, over) (omega (arith, granted-missing start requests m e within.2))
        | inr fits ↦
            let r : Record = record { count = 0 + amount; expires_at = now + window } in
            let rest =
              granted-running requests (JsMap.set dec key r m) r (JsMap.get-set_self dec key r m)
                (Within-Before start _ _ requests (omega (arith, within.0)) within.2)
                (ground arith) in
            rw (e, fits) (omega (arith, rest))
      ]

  granted-expired :
      (start : ℕ) (requests : List (ℕ × ℕ)) (m : Rates K) (r : Record)
      → JsMap.get dec key m ≡ some r
      → r.expires_at ≤ start
      → Within start (start + window) requests
      → granted dec limit window key requests m ≤ limit
  unfolding granted consume verdict fresh
  granted-expired start [] m r e old within = omega arith
  granted-expired start ((now, amount) ∷ requests) m r e old within =
      let s : Record = record { count = 0; expires_at = now + window } in
      let past : leb r.expires_at now ≡ true = ground (arith, within.0) in
      let rest =
        granted-running requests _ _ (get-settle amount s r m)
          (Within-Before start _ _ requests (omega (arith, within.0)) within.2) (ground arith) in
      rw (e, past) (ground (arith, rest))

  -- Within one window a counter that starts missing, run out or at zero grants at most its limit,
  -- whatever requests arrive and whichever of them are refused.
  pub granted-le_limit :
      (start : ℕ) (requests : List (ℕ × ℕ)) (m : Rates K)
      → (fresh start window (JsMap.get dec key m)
          ≡ record { count = 0; expires_at = start + window })
      → Within start (start + window) requests
      → granted dec limit window key requests m ≤ limit
  unfolding fresh
  granted-le_limit start requests m e within = elim (Option-cases (JsMap.get dec key m)) [
    | inl missing ↦ granted-missing start requests m missing within
    | inr (r, found) ↦ elim (Bool-cases (leb r.expires_at start)) [
      | inl past ↦ granted-expired start requests m r found (ground arith) within
      | inr live ↦
          let same : r ≡ record { count = 0; expires_at = start + window } =
            rw (found, live) at e in
          let rest =
            granted-running requests m r found
              (Within-Before start _ _ requests (ground arith) within) (ground arith) in
          omega (arith, rest)
    ]
  ]

  consume-refused :
      (now amount : ℕ) (m : Rates K)
      → amount ≤ limit
      → (consume dec now limit window amount key m).0.allowed ≡ false
      → (r : Record) × (JsMap.get dec key (consume dec now limit window amount key m).1 ≡ some r)
        × ((consume dec now limit window amount key m).0.retry_after_ms ≡ r.expires_at - now)
  unfolding consume verdict
  consume-refused now amount m fits refused = elim (Option-cases (JsMap.get dec key m)) [
    | inl missing ↦ absurd (refused-missing (rw missing at refused))
    | inr (r, found) ↦
        let s = fresh now window (some r) in
        let over : ltb limit (s.count + amount) ≡ true = refused-over s (rw found at refused) in
        (
          s,
          rw found (rw (over, settle, write_back) (JsMap.get-set_self dec key s m)),
          rw (found, over) refl,
        )
  ]
    where
      refused-over :
          (s : Record)
          → (verdict now limit amount s).allowed ≡ false
          → ltb limit (s.count + amount) ≡ true
      refused-over s h = ground arith

      refused-missing : (verdict now limit amount (fresh now window none)).allowed ≡ false → ⊥
      refused-missing h = ground arith

  -- A refused request whose amount is within the limit is admitted once the reported wait is over,
  -- when no other request came in between.
  pub consume_retry :
      (now later amount : ℕ) (m : Rates K)
      → amount ≤ limit
      → (consume dec now limit window amount key m).0.allowed ≡ false
      → now + (consume dec now limit window amount key m).0.retry_after_ms ≤ later
      → (consume dec later limit window amount key
          (consume dec now limit window amount key m).1).0.allowed
        ≡ true
  unfolding fresh
  consume_retry now later amount m fits refused wait =
      let (r, stored, reported) = consume-refused now amount m fits refused in
      (get-consume_fits later amount _ (rw stored (ground arith))).1

-- A call leaves every other counter as it was.
pub consume_other :
    {K : Type 0} (dec : Discrete K) (now limit window amount : ℕ) (key other : K) (m : Rates K)
    → key ≢ other
    → JsMap.get dec other (consume dec now limit window amount key m).1 ≡ JsMap.get dec other m
unfolding consume settle write_back
consume_other dec now limit window amount key other m h =
    let r = fresh now window (JsMap.get dec key m) in
    ground (
      arith,
      JsMap.get-set_ne dec key other r m h,
      JsMap.get-set_ne dec key other (record r { count = r.count + amount }) m h,
    )
