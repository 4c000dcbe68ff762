-- ===== src/Runtime/Metrics.antt =====
-- The counters of `GatewayMetrics` in gateway-metrics.js. A key stands for a name with its sorted
-- labels; bytes are whole numbers, and so are seconds, in a unit that is small enough.
use magento2_chat_ai.JsMap
use magento2_chat_ai.Prelude.{ℕ, ◌+◌, ◌≡◌, Option, none, some, List, [], ◌∷◌, length, arith}

pub record Sum : Type 0 where
  pub count : ℕ
  pub sum : ℕ

abbrev pub count_of : Option ℕ → ℕ
count_of none = 0
count_of (some n) = n

abbrev pub sum_of : Option Sum → Sum
sum_of none = record { count = 0; sum = 0 }
sum_of (some s) = s

abbrev pub total : List ℕ → ℕ
total [] = 0
total (v ∷ vs) = v + total vs

module _ {K : Type 0} (dec : Discrete K) where
  unfoldable pub increment : K → List (K × ℕ) → List (K × ℕ)
  increment key m = JsMap.set dec key (count_of (JsMap.get dec key m) + 1) m

  -- `observe` and `observeBytes`, each on its own map.
  unfoldable pub observe : K → ℕ → List (K × Sum) → List (K × Sum)
  observe key value m =
      let current = sum_of (JsMap.get dec key m) in
      JsMap.set dec key (record { count = current.count + 1; sum = current.sum + value }) m

  unfoldable pub observe_all : K → List ℕ → List (K × Sum) → List (K × Sum)
  unfolding observe
  observe_all key [] m = m
  observe_all key (v ∷ vs) m = observe_all key vs (observe key v m)

  -- After a series of observations of one key its count has grown by their number and its sum by
  -- their total.
  pub observe_all-sum :
      (key : K) (vs : List ℕ) (m : List (K × Sum))
      → let before = sum_of (JsMap.get dec key m) in
        let after = sum_of (JsMap.get dec key (observe_all key vs m)) in
        (after.count ≡ before.count + length vs) × (after.sum ≡ before.sum + total vs)
  unfolding observe_all observe
  observe_all-sum key [] m = (omega arith, omega arith)
  observe_all-sum key (v ∷ vs) m =
      let current = sum_of (JsMap.get dec key m) in
      let next : Sum = record { count = current.count + 1; sum = current.sum + v } in
      let ih = observe_all-sum key vs (JsMap.set dec key next m) in
      let ih' = rw (JsMap.get-set_self dec key next m) at ih in
      (omega (arith, ih'.0), omega (arith, ih'.1))
