-- ===== src/Api/Session/Cooldown.antt =====
-- src/api/auth/session.ts: a revoked refresh token in the cooldown after a refresh.
use iot_billing_backend.Common.{ℕ, ◌+◌, ◌≤◌, ◌<◌, ◌≡◌, ap, sym, ◌∙◌, String, none, some, arith}
use iot_billing_backend.Common.Dict.{get}
use iot_billing_backend.Api.Session.{
  TokenPair, Jwt, Env, Db, refresh_payload, access_payload, sign_pair, refresh_session,
  issue_session_tokens,
}
use iot_billing_backend.Api.Session.Refresh.{
  cached_or_rotated_cached, unlocked, locked, refresh_session_runs,
}
use iot_billing_backend.Api.Session.Rotation.{
  live_now, verified, refresh_token, device_matches, two_rotations, refresh_session_revokes,
}

module _ (jwt : Jwt) (draw : String → ℕ → ℕ) (env : Env) where
  -- A token of any version, while tokens are cached.
  rotation_cached :
      (now s w : ℕ) (db : Db jwt.Token) (wallet id device_id : String) (pair : TokenPair jwt.Token)
      (expiry : ℕ)
      → now < s + env.refresh_expires_in
      → get id db.cooldowns ≡ some (pair, expiry)
      → now < expiry
      → (refresh_session jwt draw env now db
          (refresh_token jwt draw env s wallet id device_id w)
          device_id).1
        ≡ some pair
  unfolding refresh_token unlocked locked refresh_payload access_payload
  rotation_cached now s w db wallet id device_id pair expiry fresh warm soon =
      let p = refresh_payload jwt draw env s wallet id device_id w in
      let held = locked jwt draw env now db device_id p in
      ap (λ r. r.1)
        (refresh_session_runs jwt draw env now db device_id p (jwt.sign p)
            (verified jwt draw env now p fresh)
            (device_matches jwt draw env s wallet id device_id w)
          ∙ ap (unlocked jwt draw env now db device_id p) (
              cached_or_rotated_cached jwt draw env now held device_id p (pair, expiry)
                (live_now (λ c. c.1) now (pair, expiry) (get id db.cooldowns) warm soon)))

  -- A revoked refresh token works again in a cooldown: a session is issued at `t0` and refreshed at
  -- `t1` and, five seconds later or more, at `t2`, each time with its newest refresh token. Then its
  -- first refresh token, two versions behind, gets the tokens of the second refresh if it is used
  -- within five seconds after that, and is refused if it is used later, its lifetime and the
  -- session's seven days not being over at either time.
  pub revoked_in_cooldown :
      (db : Db jwt.Token) (wallet id device_id : String) (t0 t1 t2 t3 t4 : ℕ)
      → get id db.cooldowns ≡ none
      → t0 ≤ t1
      → t1 + 5 ≤ t2
      → t2 ≤ t3
      → t3 < t2 + 5
      → t2 + 5 ≤ t4
      → t4 < t0 + env.refresh_expires_in
      → t4 < t0 + 604800
      → let (db0, pair0) = issue_session_tokens jwt draw env t0 id db wallet device_id in
        let (db1, pair1) = refresh_session jwt draw env t1 db0 pair0.refresh_token device_id in
        let token1 = (sign_pair jwt draw env t1 wallet id device_id 2).refresh_token in
        let (db2, pair2) = refresh_session jwt draw env t2 db1 token1 device_id in
        (pair1 ≡ some (sign_pair jwt draw env t1 wallet id device_id 2))
        × (pair2 ≡ some (sign_pair jwt draw env t2 wallet id device_id 3))
        × ((refresh_session jwt draw env t3 db2 pair0.refresh_token device_id).1 ≡ pair2)
        × ((refresh_session jwt draw env t4 db2 pair0.refresh_token device_id).1 ≡ none)
  unfolding issue_session_tokens sign_pair refresh_token
  revoked_in_cooldown db wallet id device_id t0 t1 t2 t3 t4 unused le1 le2 le3 soon le4 fresh week =
      let (first, second, there2, warm2) =
        two_rotations jwt draw env db wallet id device_id t0 t1 t2 unused le1 le2
          (omega (arith, le4, fresh)) (omega (arith, le4, week)) in
      let (one, two, refused) =
        refresh_session_revokes jwt draw env db wallet id device_id t0 t1 t2 t4 unused le1 le2 le4
          fresh week in
      let db0 = (issue_session_tokens jwt draw env t0 id db wallet device_id).0 in
      let db1 =
        (refresh_session jwt draw env t1 db0 (refresh_token jwt draw env t0 wallet id device_id 1)
          device_id).0 in
      let db2 =
        (refresh_session jwt draw env t2 db1 (refresh_token jwt draw env t1 wallet id device_id 2)
          device_id).0 in
      (
        one,
        two,
        rotation_cached t3 t0 1 db2 wallet id device_id _ (t2 + 5) (omega (arith, soon, le4, fresh))
              warm2 soon
            ∙ sym second,
        refused,
      )
