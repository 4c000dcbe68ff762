-- ===== src/Runtime/Scoped/Bound.antt =====
-- The bound on the scoped semaphores of gateway-runtime.js, over any sequence of calls.
use magento2_chat_ai.JsMap
use magento2_chat_ai.JsNumber.{JsNumber}
use magento2_chat_ai.Prelude.{
  ℕ, ◌+◌, ◌≤◌, ◌≡◌, inl, inr, Option, none, some, List, [], ◌∷◌, arith, Bool-cases, Option-cases,
  leb, ite, ℕ_discrete, length, or_else, length-keep-le,
}
use magento2_chat_ai.Runtime.Scoped.{
  Leases, Scopes, is_live, purge, write_purged, acquire_scoped, put_leases, release_scoped,
  renew_scoped_capacity,
}

-- Calls with one concurrency limit `c`.
pub data Event (K : Type 0) : Type 0 where
  acquire : ℕ → ℕ → ℕ → K → Event K
  renew : ℕ → ℕ → JsNumber → K → Event K
  release : ℕ → K → Event K

module _ {K : Type 0} (dec : Discrete K) where
  -- The leases that stand under a key.
  unfoldable pub leases : K → Scopes K → Leases
  leases key m = or_else (JsMap.get dec key m) []

  pub apply : ℕ → Event K → Scopes K → Scopes K
  apply c (acquire now lease token key) m = (acquire_scoped dec now c lease token key m).1
  apply c (renew now token lease key) m = (renew_scoped_capacity dec now token lease key m).1
  apply c (release token key) m = release_scoped dec token key m

  pub run : ℕ → List (Event K) → Scopes K → Scopes K
  run c [] m = m
  run c (e ∷ es) m = run c es (apply c e m)

  abbrev pub IsBounded : ℕ → Scopes K → Type 0
  IsBounded c m = (key : K) → length (leases key m) ≤ c

module _ {K : Type 0} (dec : Discrete K) where
  pub leases-set :
      (k key : K) (ls : Leases) (m : Scopes K)
      → leases dec key (JsMap.set dec k ls m) ≡ ite (dec k key) ls (leases dec key m)
  unfolding leases
  leases-set k key ls m = ground (arith, JsMap.get-set dec k key ls m)

  pub leases-delete :
      (k key : K) (m : Scopes K)
      → leases dec key (JsMap.delete dec k m) ≡ ite (dec k key) [] (leases dec key m)
  unfolding leases
  leases-delete k key m = ground (arith, JsMap.get-delete dec k key m)

  leases-found :
      (key : K) (ls : Leases) (m : Scopes K) → JsMap.get dec key m ≡ some ls → leases dec key m ≡ ls
  unfolding leases
  leases-found key ls m found = rw found

  set-IsBounded :
      (c : ℕ) (k : K) (ls : Leases) (m : Scopes K)
      → length ls ≤ c
      → IsBounded dec c m
      → IsBounded dec c (JsMap.set dec k ls m)
  set-IsBounded c k ls m h b key = ground (arith, leases-set k key ls m, b key)

  put_leases-IsBounded :
      (c : ℕ) (k : K) (ls : Leases) (m : Scopes K)
      → length ls ≤ c
      → IsBounded dec c m
      → IsBounded dec c (put_leases dec k ls m)
  unfolding put_leases
  put_leases-IsBounded c k [] m h b key = ground (arith, leases-delete k key m, b key)
  put_leases-IsBounded c k (l ∷ ls) m h b key = set-IsBounded c k (l ∷ ls) m h b key

  length-purge-le : (now : ℕ) (ls : Leases) → length (purge now ls) ≤ length ls
  unfolding purge
  length-purge-le now ls = length-keep-le (is_live now) ls

  acquire-IsBounded :
      (c now lease token : ℕ) (key : K) (m : Scopes K)
      → IsBounded dec c m
      → IsBounded dec c (acquire_scoped dec now c lease token key m).1
  unfolding acquire_scoped leases
  acquire-IsBounded c now lease token key m b =
      let ls = purge now (leases dec key m) in
      elim (Bool-cases (leb c (length ls))) [
        | inl full ↦ rw full (purged-IsBounded (JsMap.get dec key m))
        | inr room ↦ rw room (
            set-IsBounded c key _ m
              (ground (arith, JsMap.length-set-le ℕ_discrete token (now + lease) ls)) b)
      ]
    where
      purged-IsBounded :
          (old : Option Leases)
          → IsBounded dec c (write_purged dec key (purge now (leases dec key m)) old m)
      purged-IsBounded none = b
      purged-IsBounded (some old) =
          set-IsBounded c key _ m (omega (arith, b key, length-purge-le now (leases dec key m))) b

  renew-IsBounded :
      (c now token : ℕ) (lease : JsNumber) (key : K) (m : Scopes K)
      → IsBounded dec c m
      → IsBounded dec c (renew_scoped_capacity dec now token lease key m).1
  unfolding renew_scoped_capacity leases
  renew-IsBounded c now token lease key m b =
      elim (Option-cases (JsMap.get ℕ_discrete token (leases dec key m))) [
        | inl lost ↦ rw lost b
        | inr (e, found) ↦ rw found (
            set-IsBounded c key _ m
              (omega (arith, b key, JsMap.length-set_present ℕ_discrete token _ e _ found)) b)
      ]

  release-IsBounded :
      (c token : ℕ) (key : K) (m : Scopes K)
      → IsBounded dec c m
      → IsBounded dec c (release_scoped dec token key m)
  unfolding release_scoped
  release-IsBounded c token key m b = elim (Option-cases (JsMap.get dec key m)) [
    | inl missing ↦ rw missing b
    | inr (ls, found) ↦ rw found (
        put_leases-IsBounded c key _ m
          (omega (arith, JsMap.length-delete-le ℕ_discrete token ls, held ls found)) b)
  ]
    where
      held : (ls : Leases) → JsMap.get dec key m ≡ some ls → length ls ≤ c
      held ls found = rw (leases-found key ls m found) at (b key)

  -- Whatever calls are made with one concurrency limit, no semaphore ever holds more leases than
  -- that limit, live ones and run-out ones together.
  pub run-IsBounded :
      (c : ℕ) (es : List (Event K)) (m : Scopes K)
      → IsBounded dec c m
      → IsBounded dec c (run dec c es m)
  unfolding run apply
  run-IsBounded c [] m b = b
  run-IsBounded c (acquire now lease token key ∷ es) m b =
      run-IsBounded c es _ (acquire-IsBounded c now lease token key m b)
  run-IsBounded c (renew now token lease key ∷ es) m b =
      run-IsBounded c es _ (renew-IsBounded c now token lease key m b)
  run-IsBounded c (release token key ∷ es) m b =
      run-IsBounded c es _ (release-IsBounded c token key m b)
