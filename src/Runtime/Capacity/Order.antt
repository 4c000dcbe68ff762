-- ===== src/Runtime/Capacity/Order.antt =====
-- The order of service of the capacity queue of gateway-runtime.js.
use magento2_chat_ai.JsMap
use magento2_chat_ai.Prelude.{
  ℕ, ◌-◌, ◌≡◌, ◌≢◌, refl, sym, ◌∙◌, Bool, false, ◌&&◌, inl, inr, Option, none, some, List, [],
  if_pos, if_neg, ◌∷◌, arith, leb, ltb, keep, length, Bool-cases, ℕ_discrete,
}
use magento2_chat_ai.Runtime.Capacity.{
  Gate, Options, granted, cleanup, register, is_first, leave, try_grant, poll, renew_capacity,
  renew_found, release_capacity, capacity_metrics,
}
use magento2_chat_ai.Runtime.Capacity.Laws.{
  Event, registers, polls, renews, releases, measures, apply, run,
}

-- The second of two tokens does not stand in front of the first.
abbrev InOrder : ℕ → ℕ → List (ℕ × ℕ) → Type 0
InOrder a b [] = Unit
InOrder a b ((t, at) ∷ q) = (t ≡ b → JsMap.get ℕ_discrete a q ≡ none) × InOrder a b q

keep-absent :
    (f : ℕ × ℕ → Bool) (a : ℕ) (q : List (ℕ × ℕ))
    → JsMap.get ℕ_discrete a q ≡ none
    → JsMap.get ℕ_discrete a (keep f q) ≡ none
unfolding keep JsMap.get
keep-absent f a [] h = refl
keep-absent f a ((t, at) ∷ q) h =
    let (other, rest) = JsMap.absent-cons ℕ_discrete a t at q h in
    ground (arith, keep-absent f a q rest, other)

keep-InOrder :
    (f : ℕ × ℕ → Bool) (a b : ℕ) (q : List (ℕ × ℕ)) → InOrder a b q → InOrder a b (keep f q)
unfolding keep
keep-InOrder f a b [] h = tt
keep-InOrder f a b ((t, at) ∷ q) h = elim (Bool-cases (f (t, at))) [
  | inl e ↦ rw e ((λ same. keep-absent f a q (h.0 same)), keep-InOrder f a b q h.1)
  | inr e ↦ rw e (keep-InOrder f a b q h.1)
]

delete-InOrder :
    (a b c : ℕ) (q : List (ℕ × ℕ)) → InOrder a b q → InOrder a b (JsMap.delete ℕ_discrete c q)
unfolding JsMap.delete
delete-InOrder a b c [] h = tt
delete-InOrder a b c ((t, at) ∷ q) h =
    let rest = delete-InOrder a b c q h.1 in
    elim (ℕ_discrete t c) [
      | yes same ↦ rw (if_pos _ same) rest
      | no other ↦
          rw (if_neg _ other)
            ((λ same. ground (arith, JsMap.get-delete ℕ_discrete c a q, h.0 same)), rest)
    ]

-- A token that is new and not the first of the two is put anywhere.
set-InOrder :
    (a b c at : ℕ) (q : List (ℕ × ℕ))
    → c ≢ a
    → c ≢ b
    → InOrder a b q
    → InOrder a b (JsMap.set ℕ_discrete c at q)
unfolding JsMap.set JsMap.get
set-InOrder a b c at [] new_a new_b h = ((λ same. refl), tt)
set-InOrder a b c at ((t, at') ∷ q) new_a new_b h = elim (ℕ_discrete t c) [
  | yes same ↦ rw (if_pos _ same) h
  | no other ↦ rw (if_neg _ other) (
    (λ same. JsMap.get-set_ne ℕ_discrete c a at q new_a ∙ h.0 same),
    set-InOrder a b c at q new_a new_b h.1,
  )
]

-- The second of the two, where it was missing, comes after everything else.
last-InOrder :
    (a b at : ℕ) (q : List (ℕ × ℕ))
    → a ≢ b
    → JsMap.get ℕ_discrete b q ≡ none
    → InOrder a b (JsMap.set ℕ_discrete b at q)
unfolding JsMap.set JsMap.get
last-InOrder a b at [] differ h = ((λ same. refl), tt)
last-InOrder a b at ((t, at') ∷ q) differ h =
    let (other, rest) = JsMap.absent-cons ℕ_discrete b t at' q h in
    rw (if_neg _ other) ((λ same. absurd (other same)), last-InOrder a b at q differ rest)

absent-InOrder : (a b : ℕ) (q : List (ℕ × ℕ)) → JsMap.get ℕ_discrete b q ≡ none → InOrder a b q
absent-InOrder a b [] h = tt
absent-InOrder a b ((t, at) ∷ q) h =
    let (other, rest) = JsMap.absent-cons ℕ_discrete b t at q h in
    ((λ same. absurd (other same)), absent-InOrder a b q rest)

-- Who stands first has nobody in front.
not_first :
    (a b : ℕ) (q : List (ℕ × ℕ))
    → a ≢ b
    → InOrder a b q
    → JsMap.get ℕ_discrete a q ≢ none
    → is_first b q ≡ false
unfolding is_first JsMap.get
not_first a b [] differ h there = refl
not_first a b ((t, at) ∷ q) differ h there = elim (ℕ_discrete t b) [
  | yes same ↦ absurd (there (rw (if_neg _ (λ e. differ (sym e ∙ same))) (h.0 same)))
  | no other ↦ ground (arith, other)
]

cleanup-InOrder :
    (a b now : ℕ) (o : Options) (g : Gate)
    → InOrder a b g.queue
    → InOrder a b (cleanup now o g).queue
unfolding cleanup
cleanup-InOrder a b now o g h = keep-InOrder _ a b g.queue h

try_grant-InOrder :
    (a b now started_at : ℕ) (o : Options) (token : ℕ) (g : Gate)
    → InOrder a b g.queue
    → InOrder a b (try_grant now started_at o token g).1.queue
unfolding try_grant leave
try_grant-InOrder a b now started_at o token g h =
    elim (Bool-cases (is_first token g.queue && ltb (length g.semaphore) o.concurrency)) [
      | inl e ↦ rw e (delete-InOrder a b token g.queue h)
      | inr e ↦ rw e h
    ]

poll-InOrder :
    (a b now : ℕ) (stop : Bool) (started_at : ℕ) (o : Options) (token : ℕ) (g : Gate)
    → InOrder a b g.queue
    → InOrder a b (poll now stop started_at o token g).1.queue
unfolding poll leave
poll-InOrder a b now stop started_at o token g h =
    let gone = delete-InOrder a b token g.queue h in
    elim (Bool-cases (ltb (now - started_at) o.queue_wait_ms)) [
      | inl e ↦ elim (Bool-cases stop) [
        | inl s ↦ rw (e, s) gone
        | inr s ↦
            rw (e, s)
              (try_grant-InOrder a b now started_at o token (cleanup now o g)
                (cleanup-InOrder a b now o g h))
      ]
      | inr e ↦ rw e gone
    ]

register-InOrder :
    (a b now : ℕ) (o : Options) (c : ℕ) (g : Gate)
    → c ≢ a
    → c ≢ b
    → InOrder a b g.queue
    → InOrder a b (register now o c g).1.queue
unfolding register
register-InOrder a b now o c g new_a new_b h =
    let cleaned = cleanup-InOrder a b now o g h in
    elim (Bool-cases (leb o.max_queue (length (cleanup now o g).queue))) [
      | inl full ↦ rw full cleaned
      | inr room ↦ rw room (set-InOrder a b c now (cleanup now o g).queue new_a new_b cleaned)
    ]

joined-InOrder :
    (a b now : ℕ) (o : Options) (g : Gate)
    → a ≢ b
    → JsMap.get ℕ_discrete b g.queue ≡ none
    → InOrder a b (register now o b g).1.queue
unfolding register cleanup
joined-InOrder a b now o g differ h =
    let absent = keep-absent (λ q. leb (now - q.1) o.queue_wait_ms) b g.queue h in
    elim (Bool-cases (leb o.max_queue (length (cleanup now o g).queue))) [
      | inl full ↦ rw full (absent-InOrder a b (cleanup now o g).queue absent)
      | inr room ↦ rw room (last-InOrder a b now (cleanup now o g).queue differ absent)
    ]

-- An event registers neither of two tokens; tokens are random and never come twice.
abbrev pub Spares : ℕ → ℕ → Event → Type 0
Spares a b (registers now token) = (token ≢ a) × (token ≢ b)
Spares a b (polls now stop started_at token) = Unit
Spares a b (renews now token lease_ms) = Unit
Spares a b (releases token) = Unit
Spares a b (measures now) = Unit

abbrev pub AllSpare : ℕ → ℕ → List Event → Type 0
AllSpare a b [] = Unit
AllSpare a b (e ∷ es) = Spares a b e × AllSpare a b es

renew_found-queue :
    (until token : ℕ) (e : Option ℕ) (g : Gate) → (renew_found until token e g).1.queue ≡ g.queue
unfolding renew_found
renew_found-queue until token none g = refl
renew_found-queue until token (some e) g = refl

apply-InOrder :
    (a b : ℕ) (o : Options) (e : Event) (g : Gate)
    → Spares a b e
    → InOrder a b g.queue
    → InOrder a b (apply o e g).queue
unfolding apply release_capacity capacity_metrics renew_capacity
apply-InOrder a b o (registers now token) g spares h =
    register-InOrder a b now o token g spares.0 spares.1 h
apply-InOrder a b o (polls now stop started_at token) g spares h =
    poll-InOrder a b now stop started_at o token g h
apply-InOrder a b o (renews now token lease_ms) g spares h =
    rw (renew_found-queue _ token (JsMap.get ℕ_discrete token g.semaphore) g) h
apply-InOrder a b o (releases token) g spares h = h
apply-InOrder a b o (measures now) g spares h = h

run-InOrder :
    (a b : ℕ) (o : Options) (es : List Event) (g : Gate)
    → AllSpare a b es
    → InOrder a b g.queue
    → InOrder a b (run o es g).queue
unfolding run
run-InOrder a b o [] g spare h = h
run-InOrder a b o (e ∷ es) g spare h =
    run-InOrder a b o es (apply o e g) spare.1 (apply-InOrder a b o e g spare.0 h)

behind-waits :
    (now : ℕ) (stop : Bool) (started_at : ℕ) (o : Options) (b : ℕ) (g : Gate)
    → is_first b (cleanup now o g).queue ≡ false
    → (n : ℕ) → (poll now stop started_at o b g).0 ≢ granted n
unfolding poll try_grant
behind-waits now stop started_at o b g h n e = ground (arith, h, e)

-- Requests are served in the order in which they came: one that registers after another is granted
-- by no poll as long as the other still stands in the queue, whatever calls are made in between.
pub granted-in_order :
    (o : Options) (a b now : ℕ) (g : Gate) (es : List Event) (later : ℕ) (stop : Bool)
    (started_at n : ℕ)
    → a ≢ b
    → JsMap.get ℕ_discrete b g.queue ≡ none
    → AllSpare a b es
    → let g' = run o es (register now o b g).1 in
      JsMap.get ℕ_discrete a (cleanup later o g').queue ≢ none
      → (poll later stop started_at o b g').0 ≢ granted n
granted-in_order o a b now g es later stop started_at n differ new spare there =
    let g' = run o es (register now o b g).1 in
    let ordered =
      run-InOrder a b o es (register now o b g).1 spare (joined-InOrder a b now o g differ new) in
    behind-waits later stop started_at o b g'
      (not_first a b (cleanup later o g').queue differ (cleanup-InOrder a b later o g' ordered)
        there)
      n
