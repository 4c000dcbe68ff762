-- ===== src/Customer/GuestAccess.antt =====
-- The guest-order half of `createVerifiedAccessSession` of verified-access-session.js, over the
-- authentication cache of the gateway runtime. The value under the key of a session is an `Access`;
-- an email, trimmed and in lower case, and a token are values of any types, `is_email` and `is_token` the tests on their texts.
use magento2_chat_ai.JsMap
use magento2_chat_ai.JsNumber.{whole, number_from_env}
use magento2_chat_ai.Prelude.{
  ℕ, ◌+◌, ◌-◌, ◌*◌, ◌≤◌, ◌<◌, ◌≡◌, refl, min, max, Bool, true, false, ◌&&◌, Option, none, some, leb,
  ltb, if◌then◌else◌, arith,
}
use magento2_chat_ai.Runtime.Cache.{
  Cache, read_cache, live_value, after_read, write_cache, set_auth_cache, delete_cache,
}

pub record Access (E T : Type 0) : Type 0 where
  pub email : E
  pub token : T
  pub expires_at : ℕ

-- What the gateway reads of a client; `access` is none when the token is empty.
pub record Client (K E T : Type 0) : Type 0 where
  pub customer_id : ℕ
  pub session : Option K
  pub access : Option (Access E T)

pub record World (K E T : Type 0) : Type 0 where
  pub client : Client K E T
  pub cache : Cache K (Access E T)

-- `normalizeGuestOrderAccessExpiry` on whole numbers: seconds become milliseconds.
unfoldable pub normalize_guest_order_access_expiry : ℕ → ℕ
normalize_guest_order_access_expiry value =
    if leb value 0 then 0 else if ltb value 10000000000 then value * 1000 else value

abbrev pub guest_order_access_max_ttl_ms : ℕ
guest_order_access_max_ttl_ms = 86400000

-- The end that `rememberGuestOrderAccess` computes, for whole numbers that are not negative.
unfoldable pub access_end : ℕ → ℕ → ℕ → ℕ
unfolding normalize_guest_order_access_expiry
access_end now expires_in_seconds expires_at_seconds =
    let reported = normalize_guest_order_access_expiry expires_at_seconds in
    let lifetime =
      if leb expires_in_seconds 0
      then guest_order_access_max_ttl_ms
      else expires_in_seconds * 1000 in
    let fallback = now + max 1000 (min guest_order_access_max_ttl_ms lifetime) in
    min (now + guest_order_access_max_ttl_ms) (if ltb 0 reported then reported else fallback)

module _ {E T : Type 0} where
  unfoldable pub has_active_guest_order_access : ℕ → Option (Access E T) → Bool
  has_active_guest_order_access now none = false
  has_active_guest_order_access now (some a) = ltb now a.expires_at

module _ {K E T : Type 0} (dec : Discrete K) where
  unfoldable pub remember_for : ℕ → E → T → ℕ → Option K → World K E T → Bool × World K E T
  unfolding set_auth_cache
  remember_for now email token until none w = (false, w)
  remember_for now email token until (some key) w =
      let a : Access E T = record { email = email; token = token; expires_at = until } in
      if leb until now then (false, w) else (
        true,
        record {
          client = record w.client { access = some a };
          cache = set_auth_cache dec now (whole (until - now)) key a w.cache;
        },
      )

  unfoldable pub remember_guest_order_access : ℕ → E → T → ℕ → ℕ → World K E T → Bool × World K E T
  unfolding remember_for access_end
  remember_guest_order_access now email token expires_in_seconds expires_at_seconds w =
      remember_for now email token (access_end now expires_in_seconds expires_at_seconds)
        w.client.session w

  unfoldable pub drop_cached : Option K → Cache K (Access E T) → Cache K (Access E T)
  unfolding delete_cache
  drop_cached none m = m
  drop_cached (some key) m = delete_cache dec key m

  unfoldable pub clear_guest_order_access : World K E T → World K E T
  unfolding drop_cached
  clear_guest_order_access w = record {
    client = record w.client { access = none };
    cache = drop_cached w.client.session w.cache;
  }

module _ {K E T : Type 0} (dec : Discrete K) (is_email : E → Bool) (is_token : T → Bool) where
  unfoldable pub is_valid : ℕ → Access E T → Bool
  is_valid now a = is_token a.token && (is_email a.email && ltb now a.expires_at)

  unfoldable pub adopt : ℕ → K → Option (Access E T) → World K E T → Bool × World K E T
  unfolding is_valid delete_cache
  adopt now key none w = (false, w)
  adopt now key (some a) w =
      if is_valid now a
      then (true, record w { client = record w.client { access = some a } })
      else (false, record w { cache = delete_cache dec key w.cache })

  unfoldable pub hydrate_from : ℕ → K → World K E T → Bool × World K E T
  unfolding adopt read_cache
  hydrate_from now key w =
      let (cached, cache) = read_cache dec now key w.cache in
      adopt now key cached (record w { cache = cache })

  -- After the guards: a client that has a token keeps it while it is active.
  unfoldable pub hydrate_held : ℕ → K → Option (Access E T) → World K E T → Bool × World K E T
  unfolding hydrate_from clear_guest_order_access has_active_guest_order_access
  hydrate_held now key none w = hydrate_from now key w
  hydrate_held now key (some a) w =
      let reloaded = hydrate_from now key (clear_guest_order_access dec w) in
      if has_active_guest_order_access now (some a) then (true, w) else reloaded

  unfoldable pub hydrate_session : ℕ → Option K → World K E T → Bool × World K E T
  unfolding hydrate_held
  hydrate_session now none w = (false, w)
  hydrate_session now (some key) w = hydrate_held now key w.client.access w

  unfoldable pub hydrate_guest_order_access : ℕ → World K E T → Bool × World K E T
  unfolding hydrate_session
  hydrate_guest_order_access now w =
      let r = hydrate_session now w.client.session w in
      if ltb 0 w.client.customer_id then (false, w) else r

-- The end of an access lies after no more than a day, whatever the reply of Magento says.
pub access_end-le :
    (now expires_in_seconds expires_at_seconds : ℕ)
    → access_end now expires_in_seconds expires_at_seconds ≤ now + 86400000
unfolding access_end
access_end-le now expires_in_seconds expires_at_seconds = omega arith

module _ {K E T : Type 0} (dec : Discrete K) where
  stored-read :
      (now later until : ℕ) (key : K) (a : Access E T) (m : Cache K (Access E T))
      → now < until
      → until ≤ now + 86400000
      → later < until
      → live_value later (JsMap.get dec key (set_auth_cache dec now (whole (until - now)) key a m))
        ≡ some a
  unfolding set_auth_cache write_cache live_value number_from_env
  stored-read now later until key a m lt day live =
      let fresh : leb (now + max 1000 (min (until - now) 86400000)) later ≡ false = ground arith in
      rw (JsMap.get-set_self dec key _ m, fresh) refl

module _ {K E T : Type 0} (dec : Discrete K) (is_email : E → Bool) (is_token : T → Bool) where
  -- A verified access that was remembered for a session is found again by every client of that
  -- session that is no customer and holds none yet, at any time before the end that was computed,
  -- and is handed to it unchanged.
  pub remember-hydrate :
      (now later expires_in_seconds expires_at_seconds : ℕ) (email : E) (token : T) (key : K)
      (w : World K E T)
      → w.client.session ≡ some key
      → (is_token token && is_email email) ≡ true
      → now < access_end now expires_in_seconds expires_at_seconds
      → later < access_end now expires_in_seconds expires_at_seconds
      → let a : Access E T = record {
        email = email;
        token = token;
        expires_at = access_end now expires_in_seconds expires_at_seconds;
      } in
        let w' =
          (remember_guest_order_access dec now email token expires_in_seconds expires_at_seconds
            w).1 in
        let other : Client K E T = record { customer_id = 0; session = some key; access = none } in
        hydrate_guest_order_access dec is_email is_token later
          (record { client = other; cache = w'.cache })
        ≡ (true, record { client = record other { access = some a }; cache = w'.cache })
  unfolding remember_guest_order_access remember_for hydrate_guest_order_access hydrate_session
      hydrate_held hydrate_from adopt is_valid after_read
  remember-hydrate now later ein eat email token key w same valid lt live =
      let until = access_end now ein eat in
      let a : Access E T = record { email = email; token = token; expires_at = until } in
      let running : leb until now ≡ false = ground arith in
      let found =
        stored-read dec now later until key a w.cache lt (access_end-le now ein eat) live in
      let before : ltb later until ≡ true = ground arith in
      rw (same, running, found) (ground (arith, valid, before))
