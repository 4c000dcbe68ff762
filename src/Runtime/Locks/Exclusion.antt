-- ===== src/Runtime/Locks/Exclusion.antt =====
-- Mutual exclusion of the action locks of gateway-runtime.js over any sequence of calls.
use magento2_chat_ai.JsMap
use magento2_chat_ai.JsNumber.{JsNumber, number_from_env}
use magento2_chat_ai.Prelude.{
  ℕ, ◌+◌, ◌<◌, ◌≡◌, ◌≢◌, ◌⊎◌, inl, inr, true, false, none, some, List, [], ◌∷◌, arith, ◌∙◌,
  Bool-cases, Option-cases, ◌==◌,
}
use magento2_chat_ai.Runtime.Locks.{
  Lock, Locks, is_held, acquire_action_lock, drop_if_owner, release_lock,
}

pub data Event (K : Type 0) : Type 0 where
  acquire : ℕ → JsNumber → ℕ → K → Event K
  release : ℕ → K → Event K

module _ {K : Type 0} (dec : Discrete K) where
  pub run : List (Event K) → Locks K → Locks K
  run [] m = m
  run (acquire now ttl token key ∷ es) m = run es (acquire_action_lock dec now ttl token key m).1
  run (release token key ∷ es) m = run es (release_lock dec token key m)

-- Every acquisition comes before the lock runs out, and no release names its key and its token.
abbrev pub Undisturbed : {K : Type 0} → K → Lock → List (Event K) → Type 0
Undisturbed key l [] = Unit {0}
Undisturbed key l (acquire now ttl token k ∷ es) = (now < l.expires_at) × Undisturbed key l es
Undisturbed key l (release token k ∷ es) = ((k ≢ key) ⊎ (token ≢ l.token)) × Undisturbed key l es

module _ {K : Type 0} (dec : Discrete K) where
  refused-held :
      (now : ℕ) (ttl : JsNumber) (token : ℕ) (key : K) (l : Lock) (m : Locks K)
      → JsMap.get dec key m ≡ some l
      → now < l.expires_at
      → acquire_action_lock dec now ttl token key m ≡ (none, m)
  unfolding acquire_action_lock
  refused-held now ttl token key l m e live =
      let held : is_held now (JsMap.get dec key m) ≡ true = ground arith in rw held

  acquire-other :
      (now : ℕ) (ttl : JsNumber) (token : ℕ) (k key : K) (m : Locks K)
      → k ≢ key
      → JsMap.get dec key (acquire_action_lock dec now ttl token k m).1 ≡ JsMap.get dec key m
  unfolding acquire_action_lock
  acquire-other now ttl token k key m other = elim (Bool-cases (is_held now (JsMap.get dec k m))) [
    | inl held ↦ rw held
    | inr idle ↦ rw idle (JsMap.get-set_ne dec k key _ m other)
  ]

  acquire-stored :
      (now : ℕ) (ttl : JsNumber) (token : ℕ) (key : K) (m : Locks K)
      → (acquire_action_lock dec now ttl token key m).0 ≡ some token
      → JsMap.get dec key (acquire_action_lock dec now ttl token key m).1
        ≡ some (record { token = token; expires_at = now + number_from_env ttl 20000 1000 60000 })
  unfolding acquire_action_lock
  acquire-stored now ttl token key m h = elim (Bool-cases (is_held now (JsMap.get dec key m))) [
    | inl held ↦ absurd (none_is_not (rw held at h))
    | inr idle ↦ rw idle (JsMap.get-set_self dec key _ m)
  ]
    where
      none_is_not : none ≡ some token → ⊥
      none_is_not e = cc

  acquire-keeps :
      (now : ℕ) (ttl : JsNumber) (token : ℕ) (k key : K) (l : Lock) (m : Locks K)
      → JsMap.get dec key m ≡ some l
      → now < l.expires_at
      → JsMap.get dec key (acquire_action_lock dec now ttl token k m).1 ≡ some l
  acquire-keeps now ttl token k key l m e live = elim (dec k key) [
    | yes same ↦ rw same (rw (refused-held now ttl token key l m e live) e)
    | no other ↦ acquire-other now ttl token k key m other ∙ e
  ]

  release-keeps :
      (token : ℕ) (k key : K) (l : Lock) (m : Locks K)
      → JsMap.get dec key m ≡ some l
      → (k ≢ key) ⊎ (token ≢ l.token)
      → JsMap.get dec key (release_lock dec token k m) ≡ some l
  unfolding release_lock
  release-keeps token k key l m e apart = elim (dec k key) [
    | yes same ↦ rw same (rw e (ground (arith, other_token (apart_token same apart))))
    | no other ↦ elim (Option-cases (JsMap.get dec k m)) [
      | inl missing ↦ rw missing e
      | inr (l', found) ↦ rw found (delete_other l' other)
    ]
  ]
    where
      apart_token : k ≡ key → (k ≢ key) ⊎ (token ≢ l.token) → token ≢ l.token
      apart_token same (inl other) = absurd (other same)
      apart_token same (inr differs) = differs

      other_token : token ≢ l.token → (l.token == token) ≡ false
      other_token h = ground arith

      delete_other :
          (l' : Lock)
          → ¬ (k ≡ key)
          → JsMap.get dec key (drop_if_owner dec token k (some l') m) ≡ some l
      delete_other l' other = elim (Bool-cases (l'.token == token)) [
        | inl own ↦ rw own (JsMap.get-delete_ne dec k key m other ∙ e)
        | inr not_own ↦ rw not_own e
      ]

  run-keeps :
      (es : List (Event K)) (key : K) (l : Lock) (m : Locks K)
      → JsMap.get dec key m ≡ some l
      → Undisturbed key l es
      → JsMap.get dec key (run dec es m) ≡ some l
  unfolding run
  run-keeps [] key l m e u = e
  run-keeps (acquire now ttl token k ∷ es) key l m e u =
      run-keeps es key l _ (acquire-keeps now ttl token k key l m e u.0) u.1
  run-keeps (release token k ∷ es) key l m e u =
      run-keeps es key l _ (release-keeps token k key l m e u.0) u.1

  -- A lock that was granted stays granted: while it has not run out and is not released under its
  -- own token, whatever calls come in between, every further acquisition of its key is refused and
  -- changes nothing.
  pub acquire-held :
      (now later : ℕ) (ttl ttl' : JsNumber) (token token' : ℕ) (key : K) (m : Locks K)
      (es : List (Event K))
      → (acquire_action_lock dec now ttl token key m).0 ≡ some token
      → Undisturbed key
          (record { token = token; expires_at = now + number_from_env ttl 20000 1000 60000 })
          es
      → later < now + number_from_env ttl 20000 1000 60000
      → let m' = run dec es (acquire_action_lock dec now ttl token key m).1 in
        acquire_action_lock dec later ttl' token' key m' ≡ (none, m')
  acquire-held now later ttl ttl' token token' key m es granted u live =
      refused-held later ttl' token' key _ _
        (run-keeps es key _ _ (acquire-stored now ttl token key m granted) u) live
