-- ===== src/Security/Revocation.antt =====
-- `revokeCustomerSockets` of session-revoker.js. A session is a value of a type with decidable
-- equality, the customer id 0 stands for none, and the entries of `clientData` have different keys.
use magento2_chat_ai.Prelude.{
  ℕ, ◌+◌, ◌≡◌, refl, Bool, true, not, ◌&&◌, List, [], ◌∷◌, map, ltb, ◌==◌, keep, length, ite,
  if◌then◌else◌, arith, Bool-cases, inl, inr, ap,
}

pub record Client (H : Type 0) : Type 0 where
  pub session_id : H
  pub customer_id : ℕ

-- What is done to a socket, in the order of the calls.
pub data Effect (S : Type 0) : Type 0 where
  cancel_active_run reject_browser_cart send_auth_revoked close_socket : S → Effect S

unfoldable pub effects_of : {S : Type 0} → Bool → S → List (Effect S) → List (Effect S)
effects_of is_open ws rest =
    cancel_active_run ws
    ∷ reject_browser_cart ws
    ∷ (if is_open then send_auth_revoked ws ∷ close_socket ws ∷ rest else rest)

module _ {H : Type 0} (dec : Discrete H) where
  unfoldable pub is_revoked : H → ℕ → Client H → Bool
  is_revoked session_hash customer_id c =
      ite (dec c.session_id session_hash) true (ltb 0 customer_id && (c.customer_id == customer_id))

pub record Revoked (H S : Type 0) : Type 0 where
  pub closed : ℕ
  pub clients : List (S × Client H)
  pub effects : List (Effect S)

module _ {H S : Type 0} (dec : Discrete H) (is_open : S → Bool) where
  unfoldable pub revoke_customer_sockets : H → ℕ → List (S × Client H) → Revoked H S
  unfolding is_revoked effects_of
  revoke_customer_sockets session_hash customer_id [] = record {
    closed = 0;
    clients = [];
    effects = [];
  }
  revoke_customer_sockets session_hash customer_id ((ws, c) ∷ cs) =
      let rest = revoke_customer_sockets session_hash customer_id cs in
      if is_revoked dec session_hash customer_id c
      then record {
        closed = rest.closed + 1;
        clients = rest.clients;
        effects = effects_of (is_open ws) ws rest.effects;
      }
      else record rest { clients = (ws, c) ∷ rest.clients }

-- The sockets that were closed, in order.
pub closed_sockets : {S : Type 0} → List (Effect S) → List S
closed_sockets [] = []
closed_sockets (close_socket ws ∷ es) = ws ∷ closed_sockets es
closed_sockets (e ∷ es) = closed_sockets es

module _ {H S : Type 0} (dec : Discrete H) (is_open : S → Bool) (session_hash : H)
    (customer_id : ℕ) where
  -- Exactly the clients that do not belong to the session or the customer stay, `closed` counts the
  -- others, and of those the ones with an open socket are closed, in order.
  pub revoke-exact :
      (cs : List (S × Client H))
      → let r = revoke_customer_sockets dec is_open session_hash customer_id cs in
        (r.clients ≡ keep (λ e. not (is_revoked dec session_hash customer_id e.1)) cs)
        × (r.closed + length r.clients ≡ length cs)
        × (closed_sockets r.effects
            ≡ map
                (λ e. e.0)
                (keep (λ e. is_revoked dec session_hash customer_id e.1 && is_open e.0) cs))
  unfolding revoke_customer_sockets effects_of closed_sockets keep
  revoke-exact [] = (refl, refl, refl)
  revoke-exact ((ws, c) ∷ cs) =
      let ih = revoke-exact cs in
      elim (Bool-cases (is_revoked dec session_hash customer_id c)) [
        | inl gone ↦ elim (Bool-cases (is_open ws)) [
          | inl up ↦ rw (gone, up) (ih.0, omega (arith, ih.1), ap (λ l. ws ∷ l) ih.2)
          | inr down ↦ rw (gone, down) (ih.0, omega (arith, ih.1), ih.2)
        ]
        | inr stays ↦ rw stays (ap (λ l. (ws, c) ∷ l) ih.0, omega (arith, ih.1), ih.2)
      ]
