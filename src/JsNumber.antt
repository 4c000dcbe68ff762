-- ===== src/JsNumber.antt =====
-- The numbers that `Number(value)` gives, and the clamps which the gateway applies to settings.
use magento2_chat_ai.Prelude.{ℕ, ◌+◌, ◌≤◌, Bool, true, false, arith, min, max, leb, if◌then◌else◌}

-- `finite negative whole fraction`: the whole part of the absolute value, and whether a fraction
-- is left over. Nothing here reads how large that fraction is.
pub data JsNumber : Type 0 where
  nan : JsNumber
  infinite : Bool → JsNumber
  finite : Bool → ℕ → Bool → JsNumber

abbrev pub whole : ℕ → JsNumber
whole n = finite false n false

-- `if (!Number.isFinite(parsed)) return fallback;`
-- `return Math.max(min, Math.min(Math.trunc(parsed), max));`, for bounds that are not negative.
unfoldable pub number_from_env : JsNumber → ℕ → ℕ → ℕ → ℕ
number_from_env nan fallback lo hi = fallback
number_from_env (infinite s) fallback lo hi = fallback
number_from_env (finite true n f) fallback lo hi = max lo (min 0 hi)
number_from_env (finite false n f) fallback lo hi = max lo (min n hi)

-- `Math.max(lo, Math.min(Number(value) || fallback, hi))`. The result is compared with whole
-- counts only, so its ceiling stands for it.
unfoldable pub bounded_or_default : JsNumber → ℕ → ℕ → ℕ → ℕ
bounded_or_default nan fallback lo hi = max lo (min fallback hi)
bounded_or_default (infinite true) fallback lo hi = lo
bounded_or_default (infinite false) fallback lo hi = max lo hi
bounded_or_default (finite true n true) fallback lo hi = lo
bounded_or_default (finite true n false) fallback lo hi =
    if leb n 0 then max lo (min fallback hi) else lo
bounded_or_default (finite false n true) fallback lo hi = max lo (min (n + 1) hi)
bounded_or_default (finite false n false) fallback lo hi =
    if leb n 0 then max lo (min fallback hi) else max lo (min n hi)

pub number_from_env_bounds :
    (x : JsNumber) (fallback lo hi : ℕ)
    → lo ≤ fallback
    → fallback ≤ hi
    → (lo ≤ number_from_env x fallback lo hi) × (number_from_env x fallback lo hi ≤ hi)
unfolding number_from_env
number_from_env_bounds nan fallback lo hi p q = (p, q)
number_from_env_bounds (infinite s) fallback lo hi p q = (p, q)
number_from_env_bounds (finite true n f) fallback lo hi p q = omega arith
number_from_env_bounds (finite false n f) fallback lo hi p q = omega arith
