-- ===== src/Runtime/Cache/Claims.antt =====
-- Reads after writes, and claims that succeed once, of gateway-runtime.js.
use magento2_chat_ai.JsMap
use magento2_chat_ai.JsNumber.{JsNumber, number_from_env}
use magento2_chat_ai.Prelude.{
  ℕ, ◌+◌, ◌≤◌, ◌<◌, ◌≡◌, ◌≢◌, inl, inr, refl, sym, true, false, Option, none, some, List, [], ◌∷◌,
  arith, ◌∙◌, Option-cases, if_pos, if_neg,
}
use magento2_chat_ai.Runtime.Cache.{
  Entry, Cache, live_value, after_read, read_cache, write_cache, claim_once, delete_cache,
}

live_value_expired :
    {V : Type 0} (now later : ℕ) (o : Option (Entry V))
    → now ≤ later
    → live_value now o ≡ none
    → live_value later o ≡ none
unfolding live_value
live_value_expired now later none h e = refl
live_value_expired now later (some x) h e = ground arith

module _ {K V : Type 0} (dec : Discrete K) where
  -- Reading one key, be it a hit or a miss, changes no value that another read at that time or
  -- later finds.
  pub read-read_cache :
      (now later : ℕ) (key other : K) (m : Cache K V)
      → now ≤ later
      → (read_cache dec later other (read_cache dec now key m).1).0
        ≡ (read_cache dec later other m).0
  unfolding read_cache
  read-read_cache now later key other m h =
      elim (Option-cases (live_value now (JsMap.get dec key m))) [
        | inr (v, hit) ↦ rw hit
        | inl miss ↦
            rw (miss, after_read, JsMap.get-delete dec key other m)
              (elim (dec key other) [
                | yes same ↦
                    rw (if_pos _ same, ← same)
                      (sym (live_value_expired now later (JsMap.get dec key m) h miss))
                | no apart ↦ rw (if_neg _ apart)
              ])
      ]

-- Calls on the cache.
pub data Event (K V : Type 0) : Type 0 where
  claim : ℕ → JsNumber → K → V → Event K V
  read : ℕ → K → Event K V
  write : ℕ → ℕ → K → V → Event K V
  delete : ℕ → K → Event K V

-- All calls come before `until`, and none writes or deletes `key`.
abbrev pub Quiet : {K V : Type 0} → ℕ → K → List (Event K V) → Type 0
Quiet until key [] = Unit {0}
Quiet until key (claim now ttl k v ∷ es) = (now < until) × Quiet until key es
Quiet until key (read now k ∷ es) = (now < until) × Quiet until key es
Quiet until key (write now ttl k v ∷ es) = (now < until) × (k ≢ key) × Quiet until key es
Quiet until key (delete now k ∷ es) = (now < until) × (k ≢ key) × Quiet until key es

module _ {K V : Type 0} (dec : Discrete K) where
  pub run : List (Event K V) → Cache K V → Cache K V
  run [] m = m
  run (claim now ttl k v ∷ es) m = run es (claim_once dec now ttl k v m).1
  run (read now k ∷ es) m = run es (read_cache dec now k m).1
  run (write now ttl k v ∷ es) m = run es (write_cache dec now ttl k v m)
  run (delete now k ∷ es) m = run es (delete_cache dec k m)

module _ {K V : Type 0} (dec : Discrete K) where
  claim-refused :
      (now : ℕ) (ttl : JsNumber) (key : K) (v : V) (e : Entry V) (m : Cache K V)
      → JsMap.get dec key m ≡ some e
      → now < e.expires_at
      → claim_once dec now ttl key v m ≡ (false, m)
  unfolding claim_once
  claim-refused now ttl key v e m found live =
      let hit : live_value now (some e) ≡ some e.value = unfold live_value in ground arith in
      rw (found, hit)

  claim-other :
      (now : ℕ) (ttl : JsNumber) (k key : K) (v : V) (m : Cache K V)
      → k ≢ key
      → JsMap.get dec key (claim_once dec now ttl k v m).1 ≡ JsMap.get dec key m
  unfolding claim_once
  claim-other now ttl k key v m apart = elim (Option-cases (live_value now (JsMap.get dec k m))) [
    | inl free ↦ rw free (JsMap.get-set_ne dec k key _ m apart)
    | inr (w, taken) ↦ rw taken
  ]

  claim-stored :
      (now : ℕ) (ttl : JsNumber) (key : K) (v : V) (m : Cache K V)
      → (claim_once dec now ttl key v m).0 ≡ true
      → JsMap.get dec key (claim_once dec now ttl key v m).1
        ≡ some (record { value = v; expires_at = now + number_from_env ttl 300000 1000 600000 })
  unfolding claim_once
  claim-stored now ttl key v m won = elim (Option-cases (live_value now (JsMap.get dec key m))) [
    | inl free ↦ rw free (JsMap.get-set_self dec key _ m)
    | inr (w, taken) ↦ absurd (false_is_not (rw taken at won))
  ]
    where
      false_is_not : false ≡ true → ⊥
      false_is_not e = cc

  claim-keeps :
      (now : ℕ) (ttl : JsNumber) (k key : K) (v : V) (e : Entry V) (m : Cache K V)
      → JsMap.get dec key m ≡ some e
      → now < e.expires_at
      → JsMap.get dec key (claim_once dec now ttl k v m).1 ≡ some e
  claim-keeps now ttl k key v e m found live = elim (dec k key) [
    | yes same ↦ rw same (rw (claim-refused now ttl key v e m found live) found)
    | no apart ↦ claim-other now ttl k key v m apart ∙ found
  ]

  read-keeps :
      (now : ℕ) (k key : K) (e : Entry V) (m : Cache K V)
      → JsMap.get dec key m ≡ some e
      → now < e.expires_at
      → JsMap.get dec key (read_cache dec now k m).1 ≡ some e
  unfolding read_cache
  read-keeps now k key e m found live = elim (Option-cases (live_value now (JsMap.get dec k m))) [
    | inr (v, hit) ↦ rw hit found
    | inl miss ↦
        rw (miss, after_read)
          (JsMap.get-delete_ne dec k key m (λ same.
              let found' : JsMap.get dec k m ≡ some e = rw same found in
              live_hit (rw found' at miss))
            ∙ found)
  ]
    where
      live_hit : live_value now (some e) ≡ none → ⊥
      live_hit h = unfold live_value in ground arith

  run-keeps :
      (es : List (Event K V)) (key : K) (e : Entry V) (m : Cache K V)
      → JsMap.get dec key m ≡ some e
      → Quiet e.expires_at key es
      → JsMap.get dec key (run dec es m) ≡ some e
  unfolding run write_cache delete_cache
  run-keeps [] key e m found q = found
  run-keeps (claim now ttl k v ∷ es) key e m found q =
      run-keeps es key e _ (claim-keeps now ttl k key v e m found q.0) q.1
  run-keeps (read now k ∷ es) key e m found q =
      run-keeps es key e _ (read-keeps now k key e m found q.0) q.1
  run-keeps (write now ttl k v ∷ es) key e m found q =
      run-keeps es key e _ (JsMap.get-set_ne dec k key _ m q.1 ∙ found) q.2
  run-keeps (delete now k ∷ es) key e m found q =
      run-keeps es key e _ (JsMap.get-delete_ne dec k key m q.1 ∙ found) q.2

  -- A claim that succeeded is the only one of its key until its time is over: whatever claims, reads,
  -- writes and deletions come in between, none of them a plain write or a deletion of that key, a
  -- later claim is refused and changes nothing.
  pub claim-once :
      (now later : ℕ) (ttl ttl' : JsNumber) (key : K) (v v' : V) (m : Cache K V)
      (es : List (Event K V))
      → (claim_once dec now ttl key v m).0 ≡ true
      → Quiet (now + number_from_env ttl 300000 1000 600000) key es
      → later < now + number_from_env ttl 300000 1000 600000
      → let m' = run dec es (claim_once dec now ttl key v m).1 in
        claim_once dec later ttl' key v' m' ≡ (false, m')
  claim-once now later ttl ttl' key v v' m es won q soon =
      claim-refused later ttl' key v' _ _
        (run-keeps es key _ _ (claim-stored now ttl key v m won) q) soon
