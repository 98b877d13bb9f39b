-- ===== src/Api/Session.antt =====
-- src/api/auth/session.ts: session tokens, issued and refreshed. Times are Unix seconds.
pub mod Refresh
pub mod Rotation
pub mod Cooldown
use iot_billing_backend.Common.{
  ℕ, ◌+◌, ◌-◌, ◌*◌, ◌/◌, ◌≡◌, String, Bool, true, false, not, ◌||◌, Option, none, some, List, ltb,
  leb, str_eq, if◌then◌else◌,
}
use iot_billing_backend.Common.Dict.{Dict, get, put, delete}

-- `SessionPayload` and `RefreshTokenPayload`: an access token has no device.
pub record SessionPayload : Type 0 where
  pub sub : String
  pub wallet : String
  pub session_id : String
  pub version : ℕ
  pub device_id : Option String
  pub iat : ℕ
  pub exp : ℕ

-- The library for tokens: `sign`, and `verify` at a time, with or without `ignoreExpiration`. A
-- signed token gives back its payload, unless it has expired and expiry is not ignored. `read` is the
-- token whose text is given.
pub record Jwt : Type 1 where
  pub Token : Type 0
  pub read : List ℕ → Token
  pub sign : SessionPayload → Token
  pub verify : ℕ → Bool → Token → Option SessionPayload
  pub verify_sign :
      (now : ℕ) (ignore_expiration : Bool) (p : SessionPayload)
      → verify now ignore_expiration (sign p)
        ≡ (if ignore_expiration || ltb now p.exp then some p else none)

-- The environment's settings that the session code reads.
pub record Env : Type 0 where
  pub access_token_ttl_seconds : ℕ
  pub access_token_jitter_seconds : ℕ
  pub refresh_expires_in : ℕ
  pub token_grace_period_seconds : ℕ
  pub token_refresh_hint_seconds : ℕ

pub record TokenPair (Token : Type 0) : Type 0 where
  pub access_token : Token
  pub refresh_token : Token

-- The hash `auth:session:…`, with the time at which Redis forgets it.
pub record StoredSession : Type 0 where
  pub wallet : String
  pub device_id : String
  pub token_version : ℕ
  pub expires_at : ℕ

-- The keys of Redis that the code uses, by session: the hashes, the cooldown keys with the tokens
-- they cache, and the refresh locks; each with its expiry.
pub record Db (Token : Type 0) : Type 0 where
  pub sessions : Dict StoredSession
  pub cooldowns : Dict (TokenPair Token × ℕ)
  pub refresh_locks : Dict ℕ

-- The number of a draw that `seededUnitInterval` divides by.
abbrev pub draws : ℕ
draws = 4294967296

-- `computeAccessTokenTtlSeconds`, for the draw `r / 2^32`.
unfoldable pub compute_access_token_ttl_seconds : ℕ → ℕ → ℕ → ℕ
compute_access_token_ttl_seconds base jitter r =
    if leb jitter 0 then base else base + (r * (jitter + 1)) / draws

-- A read of a key that may have expired.
unfoldable pub live : {V : Type 0} → (V → ℕ) → ℕ → Option V → Option V
live expiry now none = none
live expiry now (some v) = if ltb now (expiry v) then some v else none

-- `draw id version` is the first word of the digest that seeds the jitter.
module _ (jwt : Jwt) (draw : String → ℕ → ℕ) where
  unfoldable pub access_payload : Env → ℕ → String → String → ℕ → SessionPayload
  access_payload env now wallet session_id version = record {
    sub = wallet;
    wallet = wallet;
    session_id = session_id;
    version = version;
    device_id = none;
    iat = now;
    exp =
        now
        + compute_access_token_ttl_seconds env.access_token_ttl_seconds
            env.access_token_jitter_seconds (draw session_id version);
  }

  unfoldable pub refresh_payload : Env → ℕ → String → String → String → ℕ → SessionPayload
  refresh_payload env now wallet session_id device_id version =
      record (access_payload env now wallet session_id version) {
        device_id = some device_id;
        exp = now + env.refresh_expires_in;
      }

  -- Both tokens of a session at a version, signed at `now`.
  unfoldable pub sign_pair : Env → ℕ → String → String → String → ℕ → TokenPair jwt.Token
  sign_pair env now wallet session_id device_id version = record {
    access_token = jwt.sign (access_payload env now wallet session_id version);
    refresh_token = jwt.sign (refresh_payload env now wallet session_id device_id version);
  }

  -- `issueSessionTokens`; the id is what `randomUUID` gives.
  unfoldable pub issue_session_tokens :
      Env → ℕ → String → Db jwt.Token → String → String → Db jwt.Token × TokenPair jwt.Token
  issue_session_tokens env now session_id db wallet device_id = (
    record db {
      sessions =
          put session_id
            (record {
              wallet = wallet;
              device_id = device_id;
              token_version = 1;
              expires_at = now + 604800;
            })
            db.sessions;
    },
    sign_pair env now wallet session_id device_id 1,
  )

  -- `refreshSession` from the read of the session on, for a session that is there.
  unfoldable pub rotate :
      Env
      → ℕ
      → Db jwt.Token
      → SessionPayload
      → String
      → StoredSession
      → Db jwt.Token × Option (TokenPair jwt.Token)
  rotate env now db decoded device_id stored =
      if ltb (decoded.version + 1) stored.token_version
      then (db, none)
      else (let tokens =
            sign_pair env now decoded.wallet decoded.session_id device_id
              (stored.token_version + 1) in
          (
            record db {
              sessions =
                  put decoded.session_id
                    (record stored { token_version = stored.token_version + 1 }) db.sessions;
              cooldowns = put decoded.session_id (tokens, now + 5) db.cooldowns;
            },
            some tokens,
          ))

  -- The body of the `try`: the cached tokens, or the rotation.
  unfoldable pub cached_or_rotated :
      Env → ℕ → Db jwt.Token → SessionPayload → String → Db jwt.Token × Option (TokenPair jwt.Token)
  cached_or_rotated env now db decoded device_id =
      elim (live (λ c. c.1) now (get decoded.session_id db.cooldowns)) [
        | some cached ↦ (db, some cached.0)
        | none ↦ elim (live (λ s. s.expires_at) now (get decoded.session_id db.sessions)) [
          | none ↦ (db, none)
          | some stored ↦ rotate env now db decoded device_id stored
        ]
      ]

  -- The device of the token is the one that asks.
  unfoldable pub same_device : Option String → String → Bool
  same_device none device_id = false
  same_device (some d) device_id = str_eq d device_id

  -- `refreshSession`, run without another call in between. It sets the lock, whoever holds it, and
  -- removes it in `finally`.
  unfoldable pub refresh_decoded :
      Env → ℕ → Db jwt.Token → SessionPayload → String → Db jwt.Token × Option (TokenPair jwt.Token)
  refresh_decoded env now db decoded device_id =
      if not (same_device decoded.device_id device_id)
      then (db, none)
      else (let locked = record db {
        refresh_locks = put decoded.session_id (now + 10) db.refresh_locks;
      } in
          let (db', tokens) = cached_or_rotated env now locked decoded device_id in
          (record db' { refresh_locks = delete decoded.session_id db'.refresh_locks }, tokens))

  unfoldable pub refresh_session :
      Env → ℕ → Db jwt.Token → jwt.Token → String → Db jwt.Token × Option (TokenPair jwt.Token)
  refresh_session env now db refresh_token device_id = elim (jwt.verify now false refresh_token) [
    | none ↦ (db, none)
    | some decoded ↦ refresh_decoded env now db decoded device_id
  ]
