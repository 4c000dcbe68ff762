-- ===== src/Customer/PendingAction.antt =====
-- pending-verification-action.js: the one action of a client that waits for a verification. The text
-- and the history, cleaned, are a value of any type; an empty text is none, and 0 is no conversation.
use magento2_chat_ai.Prelude.{
  ℕ, ◌+◌, ◌≤◌, ◌≡◌, refl, max, Bool, true, false, not, ◌&&◌, ◌||◌, Option, none, some, List, [],
  ◌∷◌, leb, ltb, if◌then◌else◌, arith, Bool-cases, inl, inr,
}

pub data Purpose : Type 0 where
  support order : Purpose

unfoldable pub same_purpose : Purpose → Purpose → Bool
same_purpose support support = true
same_purpose order order = true
same_purpose support order = false
same_purpose order support = false

pub record Pending (C : Type 0) : Type 0 where
  pub purpose : Purpose
  pub conversation_id : ℕ
  pub content : C
  pub created_at : ℕ
  pub expires_at : ℕ

module _ {C : Type 0} where
  -- The value returned, and the client's pending action; a `ttl_ms` of 0 is a missing one.
  unfoldable pub remember_pending_verification_action :
      ℕ → ℕ → Purpose → ℕ → Option C → Option (Pending C) → Option (Pending C) × Option (Pending C)
  remember_pending_verification_action now ttl_ms purpose conversation_id none client =
      (none, client)
  remember_pending_verification_action now ttl_ms purpose conversation_id (some content) client =
      let p : Pending C = record {
        purpose = purpose;
        conversation_id = conversation_id;
        content = content;
        created_at = now;
        expires_at = now + max 1000 (if leb ttl_ms 0 then 600000 else ttl_ms);
      } in
      if leb conversation_id 0 then (none, client) else (some p, some p)

  unfoldable pub consume_pending_verification_action :
      ℕ → Purpose → Option (Pending C) → Option (Pending C) × Option (Pending C)
  unfolding same_purpose
  consume_pending_verification_action now purpose none = (none, none)
  consume_pending_verification_action now purpose (some p) =
      if leb p.expires_at now || not (same_purpose p.purpose purpose)
      then (if leb p.expires_at now then (none, none) else (none, some p))
      else (some p, none)

  unfoldable pub clear_pending_verification_action : Option (Pending C) → Option (Pending C)
  clear_pending_verification_action client = none

  unfoldable pub has_pending_verification_action : ℕ → Purpose → Option (Pending C) → Bool
  unfolding same_purpose
  has_pending_verification_action now purpose none = false
  has_pending_verification_action now purpose (some p) =
      ltb now p.expires_at && same_purpose p.purpose purpose

-- Verifications that come in at a time for a purpose, checks, and clears.
pub data Event : Type 0 where
  consumes : (now : ℕ) (purpose : Purpose) → Event
  clears : Event

pub found : {A : Type 0} → Option A → ℕ
found none = 0
found (some a) = 1

module _ {C : Type 0} where
  -- How often a pending action is handed out over a series of events.
  unfoldable pub handed_out : List Event → Option (Pending C) → ℕ
  unfolding found
  handed_out [] client = 0
  handed_out (consumes now purpose ∷ es) client =
      let r = consume_pending_verification_action now purpose client in
      found r.0 + handed_out es r.1
  handed_out (clears ∷ es) client = handed_out es (clear_pending_verification_action client)

handed_out-none : (C : Type 0) (es : List Event) → handed_out {C = C} es none ≡ 0
unfolding handed_out consume_pending_verification_action clear_pending_verification_action found
handed_out-none C [] = refl
handed_out-none C (consumes now purpose ∷ es) = omega (arith, handed_out-none C es)
handed_out-none C (clears ∷ es) = handed_out-none C es

module _ {C : Type 0} where
  -- A pending action is handed out at most once, however many verifications of whatever purpose come
  -- in, at whatever times, as long as nothing new is remembered.
  pub handed_out-le_one : (es : List Event) (client : Option (Pending C)) → handed_out es client ≤ 1
  unfolding handed_out consume_pending_verification_action clear_pending_verification_action found
  handed_out-le_one es none = omega (arith, handed_out-none C es)
  handed_out-le_one [] (some p) = omega arith
  handed_out-le_one (clears ∷ es) (some p) = omega (arith, handed_out-none C es)
  handed_out-le_one (consumes now purpose ∷ es) (some p) =
      elim (Bool-cases (leb p.expires_at now || not (same_purpose p.purpose purpose))) [
        | inl held ↦ elim (Bool-cases (leb p.expires_at now)) [
          | inl late ↦ rw (held, late) (omega (arith, handed_out-none C es))
          | inr early ↦ rw (held, early) (omega (arith, handed_out-le_one es (some p)))
        ]
        | inr given ↦ rw given (omega (arith, handed_out-none C es))
      ]
