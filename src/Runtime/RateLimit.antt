-- ===== src/Runtime/RateLimit.antt =====
-- `consumeRateLimit` of gateway-runtime.js in its in-memory mode.
pub mod Window
use magento2_chat_ai.JsMap
use magento2_chat_ai.JsNumber.{JsNumber, number_from_env}
use magento2_chat_ai.Prelude.{
  ℕ, ◌+◌, ◌-◌, Bool, true, false, Option, none, some, List, leb, ltb, if◌then◌else◌,
}

pub record Record : Type 0 where
  pub count : ℕ
  pub expires_at : ℕ

-- `{ limit, windowMs, amount }` as they are passed.
pub record Policy : Type 0 where
  pub limit : JsNumber
  pub window_ms : JsNumber
  pub amount : JsNumber

pub record Admission : Type 0 where
  pub allowed : Bool
  pub count : ℕ
  pub retry_after_ms : ℕ

unfoldable pub safe_limit : Policy → ℕ
unfolding number_from_env
safe_limit p = number_from_env p.limit 15 1 10000

unfoldable pub safe_window : Policy → ℕ
unfolding number_from_env
safe_window p = number_from_env p.window_ms 60000 1000 3600000

unfoldable pub safe_amount : Policy → ℕ
unfolding number_from_env
safe_amount p = number_from_env p.amount 1 1 10000

-- The record as the call sees it: a missing or expired one starts afresh.
unfoldable pub fresh : ℕ → ℕ → Option Record → Record
fresh now window none = record { count = 0; expires_at = now + window }
fresh now window (some r) =
    if leb r.expires_at now then record { count = 0; expires_at = now + window } else r

-- The object that the call returns.
unfoldable pub verdict : ℕ → ℕ → ℕ → Record → Admission
verdict now limit amount r =
    if ltb limit (r.count + amount)
    then record { allowed = false; count = r.count; retry_after_ms = r.expires_at - now }
    else record { allowed = true; count = r.count + amount; retry_after_ms = r.expires_at - now }

abbrev pub Rates : Type 0 → Type 0
Rates K = List (K × Record)

module _ {K : Type 0} (dec : Discrete K) where
  -- `record` is the object that stands in the map, so its reset shows there at once; a record that
  -- was missing enters the map only when the call is admitted.
  unfoldable pub write_back : K → Record → Option Record → Rates K → Rates K
  write_back key r none m = m
  write_back key r (some old) m = JsMap.set dec key r m

  -- The state after the call. Both branches of `if (record.count + safeAmount > safeLimit)`.
  unfoldable pub settle : ℕ → ℕ → K → Record → Option Record → Rates K → Rates K
  unfolding write_back
  settle limit amount key r old m =
      if ltb limit (r.count + amount)
      then write_back key r old m
      else JsMap.set dec key (record r { count = r.count + amount }) m

  -- The call after its arguments are clamped.
  unfoldable pub consume : ℕ → ℕ → ℕ → ℕ → K → Rates K → Admission × Rates K
  unfolding settle fresh verdict
  consume now limit window amount key m =
      let old = JsMap.get dec key m in
      let r = fresh now window old in (verdict now limit amount r, settle limit amount key r old m)

  unfoldable pub consume_rate_limit : ℕ → Policy → K → Rates K → Admission × Rates K
  consume_rate_limit now p = consume now (safe_limit p) (safe_window p) (safe_amount p)
