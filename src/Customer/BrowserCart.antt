-- ===== src/Customer/BrowserCart.antt =====
-- `BrowserCartBridge` of browser-cart-bridge.js, for one socket: cart requests that wait for the
-- browser. A request is numbered in place of its UUID; the request id 0 stands for the empty one.
-- Texts of failures and the cart itself are left out.
use magento2_chat_ai.JsMap
use magento2_chat_ai.Prelude.{
  ℕ, ◌+◌, ◌≤◌, ◌<◌, ◌≡◌, ◌≢◌, refl, Bool, true, false, not, ◌&&◌, Option, none, some, List, [], ◌∷◌,
  leb, ◌==◌, if◌then◌else◌, arith, Bool-cases, inl, inr, ℕ_discrete,
}

-- What the promise of a request is answered with: the checked result of the browser, or a failure.
pub data Answer : Type 0 where
  browser_result : ℕ → Answer
  unavailable no_product cancelled timed_out closed invalid_result : Answer

pub record Bridge : Type 0 where
  pub next_id : ℕ
  -- The `requests` of the socket: their numbers and request ids.
  pub pending : List (ℕ × ℕ)
  -- The answers that were given, newest first.
  pub answers : List (ℕ × Answer)

abbrev pub created : Bridge
created = record { next_id = 0; pending = []; answers = [] }

-- `normalizeResult`: a result whose status is none of the three is a failure.
unfoldable pub normalize_result : Option ℕ → Answer
normalize_result none = invalid_result
normalize_result (some result) = browser_result result

-- `finish`. A request is in `requests` exactly as long as it is not settled.
unfoldable pub finish_found : ℕ → Answer → Option ℕ → Bridge → Bridge
finish_found id answer none b = b
finish_found id answer (some request_id) b = record b {
  pending = JsMap.delete ℕ_discrete id b.pending;
  answers = (id, answer) ∷ b.answers;
}

unfoldable pub finish : ℕ → Answer → Bridge → Bridge
unfolding finish_found
finish id answer b = finish_found id answer (JsMap.get ℕ_discrete id b.pending) b

-- `request`: the failure that it returns at once, or the number of the request that now waits.
-- `throws` says that sending to the socket throws.
unfoldable pub request : Bool → Bool → Bool → ℕ → Bridge → (Option Answer) × Bridge
unfolding finish
request is_open has_sku throws request_id b =
    if not is_open
    then (some unavailable, b)
    else if not has_sku
    then (some no_product, b)
    else let b' = record b {
      next_id = b.next_id + 1;
      pending = JsMap.set ℕ_discrete b.next_id request_id b.pending;
    } in
      (none, if throws then finish b.next_id unavailable b' else b')

unfoldable pub is_foreign : ℕ → ℕ → Bool
is_foreign expected given = not (leb expected 0) && not (given == expected)

unfoldable pub resolve_found : ℕ → ℕ → Option ℕ → Option ℕ → Bridge → Bool × Bridge
unfolding finish is_foreign normalize_result
resolve_found id request_id result none b = (false, b)
resolve_found id request_id result (some expected) b =
    if is_foreign expected request_id
    then (false, b)
    else (true, finish id (normalize_result result) b)

unfoldable pub resolve : ℕ → ℕ → Option ℕ → Bridge → Bool × Bridge
unfolding resolve_found
resolve id request_id result b =
    resolve_found id request_id result (JsMap.get ℕ_discrete id b.pending) b

-- `rejectAll`, over the requests that were there when it began.
unfoldable pub finish_each : List (ℕ × ℕ) → Bridge → Bridge
unfolding finish
finish_each [] b = b
finish_each ((id, request_id) ∷ rest) b = finish_each rest (finish id closed b)

unfoldable pub reject_all : Bridge → Bridge
unfolding finish_each
reject_all b = finish_each b.pending b

-- What may happen to the requests of a socket.
pub data Event : Type 0 where
  requests : (is_open has_sku throws : Bool) (request_id : ℕ) → Event
  resolves : (id request_id : ℕ) (result : Option ℕ) → Event
  times_out : (id : ℕ) → Event
  aborts : (id : ℕ) → Event
  closes : Event

unfoldable pub step : Event → Bridge → Bridge
step (requests is_open has_sku throws request_id) b =
    (request is_open has_sku throws request_id b).1
step (resolves id request_id result) b = (resolve id request_id result b).1
step (times_out id) b = finish id timed_out b
step (aborts id) b = finish id cancelled b
step closes b = reject_all b

unfoldable pub run : List Event → Bridge → Bridge
unfolding step
run [] b = b
run (ev ∷ evs) b = run evs (step ev b)

-- How many answers a request was given.
abbrev pub answered : ℕ → List (ℕ × Answer) → ℕ
answered id [] = 0
answered id ((i, a) ∷ rest) = if id == i then answered id rest + 1 else answered id rest

abbrev pub waiting : Option ℕ → ℕ
waiting none = 0
waiting (some request_id) = 1

-- Every request that was made waits or has its one answer, never both.
pub record IsSettled (b : Bridge) : Type 0 where
  pub made :
      (id : ℕ)
      → id < b.next_id
      → answered id b.answers + waiting (JsMap.get ℕ_discrete id b.pending) ≡ 1
  pub unmade :
      (id : ℕ)
      → b.next_id ≤ id
      → answered id b.answers + waiting (JsMap.get ℕ_discrete id b.pending) ≡ 0

finish_found-IsSettled :
    (id : ℕ) (answer : Answer) (o : Option ℕ) (b : Bridge)
    → JsMap.get ℕ_discrete id b.pending ≡ o
    → IsSettled b
    → IsSettled (finish_found id answer o b)
unfolding finish_found
finish_found-IsSettled id answer none b e h = h
finish_found-IsSettled id answer (some q) b e h = record {
  made = λ j lt. elim (ℕ_discrete id j) [
    | yes same ↦ ground (arith, same, e, h.made j lt, JsMap.get-delete ℕ_discrete id j b.pending)
    | no other ↦ ground (arith, other, h.made j lt, JsMap.get-delete ℕ_discrete id j b.pending)
  ];
  unmade = λ j le. elim (ℕ_discrete id j) [
    | yes same ↦ ground (arith, same, e, h.unmade id (omega (arith, same, le)))
    | no other ↦ ground (arith, other, h.unmade j le, JsMap.get-delete ℕ_discrete id j b.pending)
  ];
}

finish-IsSettled :
    (id : ℕ) (answer : Answer) (b : Bridge) → IsSettled b → IsSettled (finish id answer b)
unfolding finish
finish-IsSettled id answer b h =
    finish_found-IsSettled id answer (JsMap.get ℕ_discrete id b.pending) b refl h

finish_each-IsSettled :
    (rs : List (ℕ × ℕ)) (b : Bridge) → IsSettled b → IsSettled (finish_each rs b)
unfolding finish_each
finish_each-IsSettled [] b h = h
finish_each-IsSettled ((id, q) ∷ rs) b h =
    finish_each-IsSettled rs (finish id closed b) (finish-IsSettled id closed b h)

opened-IsSettled :
    (q : ℕ) (b : Bridge)
    → IsSettled b
    → IsSettled
        (record b { next_id = b.next_id + 1; pending = JsMap.set ℕ_discrete b.next_id q b.pending })
opened-IsSettled q b h = record {
  made = λ j lt. elim (ℕ_discrete b.next_id j) [
    | yes same ↦ ground (
      arith,
      same,
      h.unmade j (omega (arith, same)),
      JsMap.get-set ℕ_discrete b.next_id j q b.pending,
    )
    | no other ↦ ground (
      arith,
      other,
      h.made j (omega (arith, other, lt)),
      JsMap.get-set ℕ_discrete b.next_id j q b.pending,
    )
  ];
  unmade = λ j le.
      let later : b.next_id ≢ j = λ same. omega (arith, same, le) in
      ground (
        arith,
        later,
        h.unmade j (omega (arith, le)),
        JsMap.get-set ℕ_discrete b.next_id j q b.pending,
      );
}

step-IsSettled : (ev : Event) (b : Bridge) → IsSettled b → IsSettled (step ev b)
unfolding step request resolve reject_all resolve_found
step-IsSettled (requests false has_sku throws q) b h = h
step-IsSettled (requests true false throws q) b h = h
step-IsSettled (requests true true true q) b h =
    finish-IsSettled b.next_id unavailable
      (record b { next_id = b.next_id + 1; pending = JsMap.set ℕ_discrete b.next_id q b.pending })
      (opened-IsSettled q b h)
step-IsSettled (requests true true false q) b h = opened-IsSettled q b h
step-IsSettled (resolves id q result) b h = go (JsMap.get ℕ_discrete id b.pending)
  where
    go : (o : Option ℕ) → IsSettled (resolve_found id q result o b).1
    go none = h
    go (some expected) = elim (Bool-cases (is_foreign expected q)) [
      | inl foreign ↦ rw foreign h
      | inr own ↦ rw own (finish-IsSettled id (normalize_result result) b h)
    ]
step-IsSettled (times_out id) b h = finish-IsSettled id timed_out b h
step-IsSettled (aborts id) b h = finish-IsSettled id cancelled b h
step-IsSettled closes b h = finish_each-IsSettled b.pending b h

-- From a bridge on which every request that was made waits or has one answer, never both, any
-- series of requests, answers of the browser, time-outs, aborts and closes leads to such a bridge.
pub run-IsSettled : (evs : List Event) (b : Bridge) → IsSettled b → IsSettled (run evs b)
unfolding run
run-IsSettled [] b h = h
run-IsSettled (ev ∷ evs) b h = run-IsSettled evs (step ev b) (step-IsSettled ev b h)
