-- ===== src/Security/Connections.antt =====
-- `createWebSocketConnectionAdmission` and `admitLocalWebSocketConnection` of websocket-security.js.
pub mod Counting
use magento2_chat_ai.JsMap
use magento2_chat_ai.JsNumber.{JsNumber, bounded_or_default}
use magento2_chat_ai.Prelude.{
  ℕ, ◌+◌, ◌-◌, Bool, true, false, Option, none, some, List, [], ◌∷◌, leb, if◌then◌else◌,
}

pub data Reason : Type 0 where
  global_cap network_cap local_cap invalid_origin : Reason

pub record Limits : Type 0 where
  pub global_limit : ℕ
  pub network_limit : ℕ

unfoldable pub clamp_limits : JsNumber → JsNumber → Limits
unfolding bounded_or_default
clamp_limits global_limit network_limit = record {
  global_limit = bounded_or_default global_limit 500 1 10000;
  network_limit = bounded_or_default network_limit 20 1 1000;
}

-- The object that `admit` returns: its address, and the flag that its `release` closes over.
pub record Lease (A : Type 0) : Type 0 where
  pub address : A
  pub released : Bool

pub data Verdict (A : Type 0) : Type 0 where
  allowed : Lease A → Verdict A
  denied : Reason → Verdict A

-- `counts.get(address) || fallback`.
unfoldable pub count_or : ℕ → Option ℕ → ℕ
count_or fallback none = fallback
count_or fallback (some n) = if leb n 0 then fallback else n

module _ {A : Type 0} (dec : Discrete A) where
  unfoldable pub admit : Limits → A → ℕ → List (A × ℕ) → Verdict A × List (A × ℕ)
  unfolding count_or
  admit l address current_connections counts =
      let current = count_or 0 (JsMap.get dec address counts) in
      if leb l.global_limit current_connections
      then (denied global_cap, counts)
      else if leb l.network_limit current
      then (denied network_cap, counts)
      else (
        allowed (record { address = address; released = false }),
        JsMap.set dec address (current + 1) counts,
      )

  unfoldable pub put_count : A → ℕ → List (A × ℕ) → List (A × ℕ)
  put_count address next counts =
      if leb next 0 then JsMap.delete dec address counts else JsMap.set dec address next counts

  unfoldable pub release : Lease A → List (A × ℕ) → Lease A × List (A × ℕ)
  unfolding put_count count_or
  release l counts = if l.released then (l, counts) else (
    record l { released = true },
    put_count l.address (count_or 1 (JsMap.get dec l.address counts) - 1) counts,
  )

-- What `admitLocalWebSocketConnection` does to the socket and to the metrics.
pub data Effect (A : Type 0) : Type 0 where
  rejected_metric : Reason → Effect A
  close_socket : ℕ → Effect A
  release_on_close : Lease A → Effect A

-- `origin_allowed` is the answer of `isAllowedWebSocketOrigin`; no admission at all is `none`.
unfoldable pub admit_local : {A : Type 0} → Option (Verdict A) → Bool → Bool × List (Effect A)
admit_local none origin_allowed = (false, rejected_metric local_cap ∷ close_socket 1013 ∷ [])
admit_local (some (denied r)) origin_allowed = (false, rejected_metric r ∷ close_socket 1013 ∷ [])
admit_local (some (allowed l)) origin_allowed =
    if origin_allowed
    then (true, release_on_close l ∷ [])
    else (false, release_on_close l ∷ rejected_metric invalid_origin ∷ close_socket 1008 ∷ [])
