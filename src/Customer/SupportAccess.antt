-- ===== src/Customer/SupportAccess.antt =====
-- The support half of `createVerifiedAccessSession` of verified-access-session.js. The records are
-- those of Customer.GuestAccess; a client's `access` is here its verified support email.
use magento2_chat_ai.JsNumber.{whole}
use magento2_chat_ai.Prelude.{
  ℕ, ◌+◌, ◌-◌, ◌≤◌, min, Bool, true, false, Option, none, some, leb, ltb, if◌then◌else◌, arith,
}
use magento2_chat_ai.Runtime.Cache.{set_auth_cache}
use magento2_chat_ai.Customer.GuestAccess.{
  Access, World, normalize_guest_order_access_expiry, has_active_guest_order_access, drop_cached,
  hydrate_from,
}

abbrev pub support_email_verification_ttl_ms : ℕ
support_email_verification_ttl_ms = 1800000

-- The end that `rememberSupportEmailVerification` computes.
unfoldable pub verification_end : ℕ → ℕ → ℕ
unfolding normalize_guest_order_access_expiry
verification_end now reported_expiry =
    let reported = normalize_guest_order_access_expiry reported_expiry in
    min (if ltb now reported then reported else now + support_email_verification_ttl_ms)
      (now + support_email_verification_ttl_ms)

module _ {K E T : Type 0} (dec : Discrete K) where
  unfoldable pub remember_until : ℕ → E → T → ℕ → Option K → World K E T → Bool × World K E T
  unfolding set_auth_cache
  remember_until now email token until none w = (false, w)
  remember_until now email token until (some key) w =
      let a : Access E T = record { email = email; token = token; expires_at = until } in
      if leb until now then (false, w) else (
        true,
        record {
          client = record w.client { access = some a };
          cache = set_auth_cache dec now (whole (until - now)) key a w.cache;
        },
      )

  unfoldable pub remember_support_email_verification :
      ℕ → E → T → ℕ → World K E T → Bool × World K E T
  unfolding remember_until verification_end
  remember_support_email_verification now email token reported_expiry w =
      remember_until now email token (verification_end now reported_expiry) w.client.session w

  unfoldable pub clear_support_email_verification : World K E T → World K E T
  unfolding drop_cached
  clear_support_email_verification w = record {
    client = record w.client { access = none };
    cache = drop_cached dec w.client.session w.cache;
  }

module _ {K E T : Type 0} (dec : Discrete K) (is_email : E → Bool) (is_token : T → Bool) where
  unfoldable pub hydrate_for : ℕ → Option K → World K E T → Bool × World K E T
  unfolding hydrate_from has_active_guest_order_access
  hydrate_for now none w = (false, w)
  hydrate_for now (some key) w =
      let reloaded = hydrate_from dec is_email is_token now key w in
      if has_active_guest_order_access now w.client.access then (true, w) else reloaded

  unfoldable pub hydrate_support_email_verification : ℕ → World K E T → Bool × World K E T
  unfolding hydrate_for
  hydrate_support_email_verification now w = hydrate_for now w.client.session w

-- A verification that is remembered never lasts longer than half an hour, and always some time.
pub verification_end-bounds :
    (now reported_expiry : ℕ)
    → (now + 1 ≤ verification_end now reported_expiry)
      × (verification_end now reported_expiry ≤ now + 1800000)
unfolding verification_end
verification_end-bounds now reported_expiry = ground arith
