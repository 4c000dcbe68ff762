-- ===== src/Security/Connections/Counting.antt =====
-- The per-network counters of websocket-security.js count exactly the leases that are held.
use magento2_chat_ai.JsMap
use magento2_chat_ai.Prelude.{
  ℕ, zero, suc, ◌+◌, ◌-◌, ◌≤◌, ◌≡◌, inl, inr, false, Option, none, some, List, [], ◌∷◌, arith, ◌∙◌,
  Bool-cases, leb, if◌then◌else◌, ite, if_pos, if_neg,
}
use magento2_chat_ai.Security.Connections.{
  Limits, Lease, Verdict, allowed, denied, count_or, admit, put_count, release,
}

pub record World (A : Type 0) : Type 0 where
  pub counts : List (A × ℕ)
  -- Every lease that was ever granted, newest first.
  pub leases : List (Lease A)

-- A connection asks with the current number of connections, or the lease at an index is released.
pub data Event (A : Type 0) : Type 0 where
  admits : A → ℕ → Event A
  releases : ℕ → Event A

module _ {A : Type 0} (dec : Discrete A) where
  pub granted : List (A × ℕ) → Verdict A → List (Lease A) → World A
  granted counts (allowed l) ls = record { counts = counts; leases = l ∷ ls }
  granted counts (denied r) ls = record { counts = counts; leases = ls }

  -- Releasing the lease at an index of the list, in place.
  pub release_at : ℕ → List (A × ℕ) → List (Lease A) → World A
  release_at i counts [] = record { counts = counts; leases = [] }
  release_at zero counts (l ∷ ls) =
      let (l', counts') = release dec l counts in record { counts = counts'; leases = l' ∷ ls }
  release_at (suc i) counts (l ∷ ls) =
      let w = release_at i counts ls in record w { leases = l ∷ w.leases }

  pub step : Limits → Event A → World A → World A
  unfolding granted
  step lim (admits address current) w =
      let (v, counts) = admit dec lim address current w.counts in granted counts v w.leases
  step lim (releases i) w = release_at i w.counts w.leases

  pub run : Limits → List (Event A) → World A → World A
  run lim [] w = w
  run lim (e ∷ es) w = run lim es (step lim e w)

  -- The leases of an address that are not released.
  unfoldable pub held : A → List (Lease A) → ℕ
  held a [] = 0
  held a (l ∷ ls) = (if l.released then 0 else ite (dec l.address a) 1 0) + held a ls

  abbrev pub counter : A → List (A × ℕ) → ℕ
  counter a counts = count_or 0 (JsMap.get dec a counts)

  pub record IsCounted (lim : Limits) (w : World A) : Type 0 where
    pub exact : (a : A) → counter a w.counts ≡ held a w.leases
    pub within : (a : A) → held a w.leases ≤ lim.network_limit

module _ {A : Type 0} (dec : Discrete A) where
  counter-set :
      (k a : A) (n : ℕ) (counts : List (A × ℕ))
      → counter dec a (JsMap.set dec k (n + 1) counts)
        ≡ ite (dec k a) (n + 1) (counter dec a counts)
  unfolding count_or
  counter-set k a n counts = ground (arith, JsMap.get-set dec k a (n + 1) counts)

  counter-put_count :
      (k a : A) (n : ℕ) (counts : List (A × ℕ))
      → counter dec a (put_count dec k n counts) ≡ ite (dec k a) n (counter dec a counts)
  unfolding count_or put_count
  counter-put_count k a n counts =
      ground (arith, JsMap.get-set dec k a n counts, JsMap.get-delete dec k a counts)

  -- A release lowers the counter of its own address by one, once.
  counter-release :
      (l : Lease A) (a : A) (counts : List (A × ℕ))
      → counter dec a (release dec l counts).1
        ≡ counter dec a counts - (if l.released then 0 else ite (dec l.address a) 1 0)
  unfolding release
  counter-release l a counts = elim (Bool-cases l.released) [
    | inl done ↦ rw done (omega arith)
    | inr open_lease ↦ rw open_lease (
        counter-put_count l.address a (count_or 1 (JsMap.get dec l.address counts) - 1) counts
        ∙ lowered)
  ]
    where
      count_or_one : (o : Option ℕ) → count_or 1 o - 1 ≡ count_or 0 o - 1
      count_or_one none = unfold count_or in omega arith
      count_or_one (some n) = unfold count_or in ground arith

      lowered :
          ite
            (dec l.address a)
            (count_or 1 (JsMap.get dec l.address counts) - 1)
            (counter dec a counts)
          ≡ counter dec a counts - ite (dec l.address a) 1 0
      lowered = elim (dec l.address a) [
        | yes same ↦
            rw (if_pos _ same, if_pos _ same, ← same)
              (count_or_one (JsMap.get dec l.address counts))
        | no other ↦ rw (if_neg _ other, if_neg _ other) (omega arith)
      ]

  release-held :
      (l : Lease A) (a : A) (ls : List (Lease A)) (counts : List (A × ℕ))
      → held dec a ((release dec l counts).0 ∷ ls) ≡ held dec a ls
  unfolding release held
  release-held l a ls counts = ground arith

  -- Releasing at an index keeps the counter of an address in step with its leases; `n` stands for
  -- the leases further up the list.
  release_at-exact :
      (i n : ℕ) (ls : List (Lease A)) (counts : List (A × ℕ)) (a : A)
      → counter dec a counts ≡ n + held dec a ls
      → counter dec a (release_at dec i counts ls).counts
        ≡ n + held dec a (release_at dec i counts ls).leases
  unfolding release_at held
  release_at-exact i n [] counts a e = e
  release_at-exact zero n (l ∷ ls) counts a e =
      omega (arith, e, counter-release l a counts, release-held l a ls counts)
  release_at-exact (suc i) n (l ∷ ls) counts a e = omega (
    arith,
    release_at-exact i (n + (if l.released then 0 else ite (dec l.address a) 1 0)) ls counts a
        (omega (arith, e)),
  )

  release_at-le :
      (i : ℕ) (ls : List (Lease A)) (counts : List (A × ℕ)) (a : A)
      → held dec a (release_at dec i counts ls).leases ≤ held dec a ls
  unfolding release_at held
  release_at-le i [] counts a = omega arith
  release_at-le zero (l ∷ ls) counts a = omega (arith, release-held l a ls counts)
  release_at-le (suc i) (l ∷ ls) counts a = omega (arith, release_at-le i ls counts a)

  admit-IsCounted :
      (lim : Limits) (address : A) (current : ℕ) (w : World A)
      → IsCounted dec lim w
      → IsCounted dec lim (step dec lim (admits address current) w)
  unfolding step admit granted held
  admit-IsCounted lim address current w v = elim (Bool-cases (leb lim.global_limit current)) [
    | inl full ↦ rw full v
    | inr below ↦ elim (Bool-cases (leb lim.network_limit (counter dec address w.counts))) [
      | inl capped ↦ rw (below, capped) v
      | inr room ↦
          rw (below, room)
            (record {
              exact = λ a.
                  counter-set address a (counter dec address w.counts) w.counts
                  ∙ moved a (v.exact a);
              within = λ a. bounded a room (v.exact address) (v.within a);
            })
    ]
  ]
    where
      moved :
          (a : A)
          → counter dec a w.counts ≡ held dec a w.leases
          → ite (dec address a) (counter dec address w.counts + 1) (counter dec a w.counts)
            ≡ ite (dec address a) 1 0 + held dec a w.leases
      moved a e = ground arith

      bounded :
          (a : A)
          → leb lim.network_limit (counter dec address w.counts) ≡ false
          → counter dec address w.counts ≡ held dec address w.leases
          → held dec a w.leases ≤ lim.network_limit
          → ite (dec address a) 1 0 + held dec a w.leases ≤ lim.network_limit
      bounded a room e h = ground arith

  step-IsCounted :
      (lim : Limits) (e : Event A) (w : World A)
      → IsCounted dec lim w
      → IsCounted dec lim (step dec lim e w)
  unfolding step
  step-IsCounted lim (admits address current) w v = admit-IsCounted lim address current w v
  step-IsCounted lim (releases i) w v = record {
    exact = λ a.
        let kept = release_at-exact i 0 w.leases w.counts a (omega (arith, v.exact a)) in
        omega (arith, kept);
    within = λ a. omega (arith, release_at-le i w.leases w.counts a, v.within a);
  }

  -- After any series of admissions and releases, repeated releases included, the counter of every
  -- network address is the number of its leases that are not released, and at most its limit.
  pub run-IsCounted :
      (lim : Limits) (es : List (Event A)) (w : World A)
      → IsCounted dec lim w
      → IsCounted dec lim (run dec lim es w)
  unfolding run
  run-IsCounted lim [] w v = v
  run-IsCounted lim (e ∷ es) w v = run-IsCounted lim es _ (step-IsCounted lim e w v)
