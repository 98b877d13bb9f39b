-- ===== src/Api/Session/Refresh.antt =====
-- src/api/auth/session.ts: the branches of `refreshSession`, and the spread of the lifetimes.
use iot_billing_backend.Common.{
  ℕ, ◌+◌, ◌≤◌, ◌<◌, ◌≡◌, refl, String, true, false, Option, none, some, ltb, arith,
}
use native.Mathlib.Nat.{mul-le-mul_right}
use iot_billing_backend.Common.Dict.{get, put, delete}
use iot_billing_backend.Api.Session.{
  SessionPayload, Jwt, Env, TokenPair, StoredSession, Db, draws, compute_access_token_ttl_seconds,
  live, sign_pair, rotate, cached_or_rotated, same_device, refresh_decoded, refresh_session,
}

-- The lifetime of an access token is at least the base and at most the base and the jitter.
pub compute_access_token_ttl_seconds-bound :
    (base jitter r : ℕ)
    → r < draws
    → (base ≤ compute_access_token_ttl_seconds base jitter r)
      × (compute_access_token_ttl_seconds base jitter r ≤ base + jitter)
unfolding compute_access_token_ttl_seconds
compute_access_token_ttl_seconds-bound base jitter r lt =
    ground (arith, mul-le-mul_right (jitter + 1) lt)

module _ (jwt : Jwt) (draw : String → ℕ → ℕ) (env : Env) (now : ℕ) (db : Db jwt.Token)
    (device_id : String) (p : SessionPayload) where
  pub rotate_recent :
      (stored : StoredSession)
      → ltb (p.version + 1) stored.token_version ≡ false
      → rotate jwt draw env now db p device_id stored ≡ (
        record db {
          sessions =
              put p.session_id
                (record stored { token_version = stored.token_version + 1 })
                db.sessions;
          cooldowns =
              put p.session_id
                (
                  sign_pair jwt draw env now p.wallet p.session_id device_id
                      (stored.token_version + 1),
                  now + 5,
                )
                db.cooldowns;
        },
        some
            (sign_pair jwt draw env now p.wallet p.session_id device_id (stored.token_version + 1)),
      )
  unfolding rotate
  rotate_recent stored recent = rw (recent, rotate) refl

  pub rotate_old :
      (stored : StoredSession)
      → ltb (p.version + 1) stored.token_version ≡ true
      → rotate jwt draw env now db p device_id stored ≡ (db, none)
  unfolding rotate
  rotate_old stored old = rw (old, rotate) refl

  pub cached_or_rotated_cached :
      (c : TokenPair jwt.Token × ℕ)
      → live (λ c. c.1) now (get p.session_id db.cooldowns) ≡ some c
      → cached_or_rotated jwt draw env now db p device_id ≡ (db, some c.0)
  unfolding cached_or_rotated
  cached_or_rotated_cached c warm = rw (warm, cached_or_rotated) refl

  pub cached_or_rotated_found :
      (stored : StoredSession)
      → live (λ c. c.1) now (get p.session_id db.cooldowns) ≡ none
      → live (λ s. s.expires_at) now (get p.session_id db.sessions) ≡ some stored
      → cached_or_rotated jwt draw env now db p device_id
        ≡ rotate jwt draw env now db p device_id stored
  unfolding cached_or_rotated
  cached_or_rotated_found stored cold there = rw (cold, cached_or_rotated, there) refl

  unfoldable pub unlocked :
      Db jwt.Token × Option (TokenPair jwt.Token) → Db jwt.Token × Option (TokenPair jwt.Token)
  unlocked (db', tokens) =
      (record db' { refresh_locks = delete p.session_id db'.refresh_locks }, tokens)

  unfoldable pub locked : Db jwt.Token
  locked = record db { refresh_locks = put p.session_id (now + 10) db.refresh_locks }

  pub refresh_session_runs :
      (token : jwt.Token)
      → jwt.verify now false token ≡ some p
      → same_device jwt draw p.device_id device_id ≡ true
      → refresh_session jwt draw env now db token device_id
        ≡ unlocked (cached_or_rotated jwt draw env now locked p device_id)
  unfolding refresh_session refresh_decoded unlocked locked
  refresh_session_runs token signed same =
      rw (signed, refresh_session) (rw (same, refresh_decoded) refl)
