-- ===== src/Runtime/Batch.antt =====
-- `consumeRateLimitBatch` of gateway-runtime.js in its in-memory mode.
pub mod Atomic
use magento2_chat_ai.JsMap
use magento2_chat_ai.Prelude.{
  ℕ, ◌+◌, ◌-◌, min, max, Bool, true, false, Option, none, some, List, [], ◌∷◌, map, ltb, find,
  if◌then◌else◌,
}
use magento2_chat_ai.Runtime.RateLimit.{
  Record, Policy, Rates, fresh, write_back, safe_limit, safe_window, safe_amount,
}

-- One of the `entries`, and one value of the `normalized` map. `K` is the type of rate keys.
pub record Entry (I : Type 0) : Type 0 where
  pub identity : I
  pub policy : Policy

pub record Merged (I : Type 0) : Type 0 where
  pub identity : I
  pub limit : ℕ
  pub window_ms : ℕ
  pub amount : ℕ

pub record BatchAdmission (I : Type 0) : Type 0 where
  pub allowed : Bool
  pub count : ℕ
  pub failed_identity : Option I
  pub retry_after_ms : ℕ

module _ {I : Type 0} where
  -- The value that an entry gets beside the one that its key had.
  unfoldable pub merge : Entry I → Option (Merged I) → Merged I
  unfolding safe_limit safe_window safe_amount
  merge e none = record {
    identity = e.identity;
    limit = safe_limit e.policy;
    window_ms = safe_window e.policy;
    amount = safe_amount e.policy;
  }
  merge e (some x) = record {
    identity = e.identity;
    limit = min x.limit (safe_limit e.policy);
    window_ms = min x.window_ms (safe_window e.policy);
    amount = max x.amount (safe_amount e.policy);
  }

module _ {I K : Type 0} (dec : Discrete K) (hash : I → K) where
  -- The first loop. `hash` is the rate key of an identity.
  unfoldable pub normalize : List (Entry I) → List (K × Merged I) → List (K × Merged I)
  unfolding merge
  normalize [] m = m
  normalize (e ∷ es) m =
      let key = hash e.identity in
      normalize es (JsMap.set dec key (merge e (JsMap.get dec key m)) m)

module _ {I K : Type 0} (dec : Discrete K) where
  -- The counter of a policy as the call sees it.
  unfoldable pub seen : ℕ → Rates K → K × Merged I → K × Merged I × Record
  unfolding fresh
  seen now m (key, p) = (key, p, fresh now p.window_ms (JsMap.get dec key m))

  -- Counters that ran out are reset where they stand.
  unfoldable pub refresh : ℕ → List (K × Merged I) → Rates K → Rates K
  unfolding write_back fresh
  refresh now [] m = m
  refresh now ((key, p) ∷ ps) m =
      let old = JsMap.get dec key m in
      refresh now ps (write_back dec key (fresh now p.window_ms old) old m)

  abbrev pub exceeds : ℕ → K × Merged I × Record → Bool
  exceeds amount (key, p, r) = ltb p.limit (r.count + amount)

  -- `records.forEach(...)`.
  unfoldable pub charge : ℕ → List (K × Merged I × Record) → Rates K → Rates K
  charge amount [] m = m
  charge amount ((key, p, r) ∷ rs) m =
      charge amount rs (JsMap.set dec key (record r { count = r.count + amount }) m)

  unfoldable pub refuse_or_charge :
      ℕ
      → ℕ
      → List (K × Merged I × Record)
      → Option (K × Merged I × Record)
      → Rates K
      → BatchAdmission I × Rates K
  unfolding charge
  refuse_or_charge now amount rs (some (key, p, r)) m = (
    record {
      allowed = false;
      count = r.count;
      failed_identity = some p.identity;
      retry_after_ms = r.expires_at - now;
    },
    m,
  )
  refuse_or_charge now amount rs none m = (
    record { allowed = true; count = amount; failed_identity = none; retry_after_ms = 0 },
    charge amount rs m,
  )

  -- The call on the normalized policies; with none it admits at once.
  unfoldable pub consume_policies : ℕ → List (K × Merged I) → Rates K → BatchAdmission I × Rates K
  unfolding refuse_or_charge refresh seen find
  consume_policies now [] m =
      (record { allowed = true; count = 0; failed_identity = none; retry_after_ms = 0 }, m)
  consume_policies now ((key, p) ∷ ps) m =
      let policies = (key, p) ∷ ps in
      let rs = map (seen now m) policies in
      refuse_or_charge now p.amount rs (find (exceeds p.amount) rs) (refresh now policies m)

module _ {I K : Type 0} (dec : Discrete K) (hash : I → K) where
  unfoldable pub consume_rate_limit_batch :
      ℕ → List (Entry I) → Rates K → BatchAdmission I × Rates K
  unfolding normalize consume_policies
  consume_rate_limit_batch now entries m =
      consume_policies dec now (normalize dec hash entries []) m
