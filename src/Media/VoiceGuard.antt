-- ===== src/Media/VoiceGuard.antt =====
-- `acquireVoiceTranscriptionAdmission` of voice-transcription-guard.js, for a known runtime and
-- identity, over the rate limits and the scoped semaphores of the gateway runtime.

use magento2_chat_ai.JsNumber.{JsNumber, whole, number_from_env}
use magento2_chat_ai.Prelude.{
  ℕ, ◌+◌, ◌≡◌, ◌≢◌, refl, min, Option, none, some, if◌then◌else◌, Bool-cases, inl, inr,
  Option-cases,
}
use magento2_chat_ai.Runtime.RateLimit.{Policy, Rates, consume_rate_limit}
use magento2_chat_ai.Runtime.Scoped.{Scopes, acquire_scoped_capacity, acquire_scoped}
use magento2_chat_ai.Runtime.Scoped.Live.{live, live-refused}

-- The `voice` settings that are read.
pub record VoiceConfig : Type 0 where
  pub requests_per_minute : JsNumber
  pub timeout_ms : JsNumber
  pub max_concurrent_per_identity : JsNumber

pub record State (K S : Type 0) : Type 0 where
  pub rates : Rates K
  pub scopes : Scopes S

pub data Result : Type 0 where
  allowed : ℕ → Result
  rate_limited : ℕ → Result
  busy : Result

unfoldable pub minute_policy : VoiceConfig → Policy
unfolding number_from_env
minute_policy c = record {
  limit = whole (number_from_env c.requests_per_minute 6 1 30);
  window_ms = whole 60000;
  amount = whole 1;
}

unfoldable pub verdict_of : Option ℕ → Result
verdict_of none = busy
verdict_of (some token) = allowed token

module _ {K S : Type 0} (dec : Discrete K) (dec_scope : Discrete S) where
  unfoldable pub acquire_slot : ℕ → VoiceConfig → S → ℕ → State K S → Result × State K S
  unfolding acquire_scoped_capacity number_from_env verdict_of
  acquire_slot now c scope token s =
      let timeout_ms = number_from_env c.timeout_ms 120000 10000 180000 in
      let (t, scopes) =
        acquire_scoped_capacity dec_scope now
          (whole (number_from_env c.max_concurrent_per_identity 1 1 2))
          (whole (min 300000 (timeout_ms + 10000))) token scope s.scopes in
      (verdict_of t, record s { scopes = scopes })

  -- `key` is the counter `${identity}:voice:minute`, and `token` what the runtime would draw.
  unfoldable pub acquire_voice_transcription_admission :
      ℕ → VoiceConfig → K → S → ℕ → State K S → Result × State K S
  unfolding consume_rate_limit minute_policy acquire_slot
  acquire_voice_transcription_admission now c key scope token s =
      let (rate, rates) = consume_rate_limit dec now (minute_policy c) key s.rates in
      let s' = record s { rates = rates } in
      let admitted = acquire_slot now c scope token s' in
      if rate.allowed then admitted else (rate_limited rate.retry_after_ms, s')

  acquire_slot-live :
      (now : ℕ) (c : VoiceConfig) (scope other : S) (token : ℕ) (s : State K S)
      → ((t : ℕ) → (acquire_slot now c scope token s).0 ≢ allowed t)
      → live dec_scope now other (acquire_slot now c scope token s).1.scopes
        ≡ live dec_scope now other s.scopes
  unfolding acquire_slot acquire_scoped_capacity verdict_of
  acquire_slot-live now c scope other token s h =
      let slots =
        number_from_env (whole (number_from_env c.max_concurrent_per_identity 1 1 2)) 1 1 100 in
      let lease =
        number_from_env
          (whole (min 300000 (number_from_env c.timeout_ms 120000 10000 180000 + 10000))) 180000
          1000 600000 in
      elim (Option-cases (acquire_scoped dec_scope now slots lease token scope s.scopes).0) [
        | inl full ↦ live-refused dec_scope now slots lease token scope other s.scopes full
        | inr (t, got) ↦ absurd (h t (rw got refl))
      ]

  -- A voice request that is refused, by its rate or for want of a slot, leaves the live slots of every
  -- identity as they were.
  pub voice_refused-live :
      (now : ℕ) (c : VoiceConfig) (key : K) (scope other : S) (token : ℕ) (s : State K S)
      → ((t : ℕ) → (acquire_voice_transcription_admission now c key scope token s).0 ≢ allowed t)
      → live dec_scope now other
          (acquire_voice_transcription_admission now c key scope token s).1.scopes
        ≡ live dec_scope now other s.scopes
  unfolding acquire_voice_transcription_admission
  voice_refused-live now c key scope other token s h =
      elim (Bool-cases (consume_rate_limit dec now (minute_policy c) key s.rates).0.allowed) [
        | inl fits ↦ rw fits (
            acquire_slot-live now c scope other token
              (record s { rates = (consume_rate_limit dec now (minute_policy c) key s.rates).1 })
              (rw fits at h))
        | inr over ↦ rw over refl
      ]
