-- ===== src/Api/Session/Rotation.antt =====
-- src/api/auth/session.ts: a session from its first tokens on.
use iot_billing_backend.Common.{
  ℕ, ◌+◌, ◌≤◌, ◌<◌, ◌≡◌, refl, ap, ◌∙◌, String, true, false, Option, none, some, arith, eq_iff,
}
use iot_billing_backend.Common.Dict.{get, get-put_self}
use iot_billing_backend.Api.Session.{
  SessionPayload, Jwt, Env, StoredSession, Db, live, refresh_payload, access_payload, sign_pair,
  same_device, refresh_session, issue_session_tokens,
}
use iot_billing_backend.Api.Session.Refresh.{
  rotate_recent, rotate_old, cached_or_rotated_found, unlocked, locked, refresh_session_runs,
}

pub live_now :
    {V : Type 0}
    → (expiry : V → ℕ) (now : ℕ) (v : V) (o : Option V) → o ≡ some v
    → now < expiry v
    → live expiry now o ≡ some v
unfolding live
live_now expiry now v o e lt = rw (e, live) (ground (arith, lt))

live_past :
    {V : Type 0}
    → (expiry : V → ℕ) (now : ℕ) (v : V) (o : Option V) → o ≡ some v
    → expiry v ≤ now
    → live expiry now o ≡ none
unfolding live
live_past expiry now v o e le = rw (e, live) (ground (arith, le))

module _ (jwt : Jwt) (draw : String → ℕ → ℕ) (env : Env) where
  pub verified :
      (now : ℕ) (p : SessionPayload) → now < p.exp → jwt.verify now false (jwt.sign p) ≡ some p
  verified now p lt = jwt.verify_sign now false p ∙ ground (arith, lt)

  -- The refresh token of a session at a version, signed at a time.
  unfoldable pub refresh_token : ℕ → String → String → String → ℕ → jwt.Token
  refresh_token s wallet id device_id version =
      jwt.sign (refresh_payload jwt draw env s wallet id device_id version)

  pub device_matches :
      (s : ℕ) (wallet id device_id : String) (version : ℕ)
      → same_device jwt draw
          (refresh_payload jwt draw env s wallet id device_id version).device_id
          device_id
        ≡ true
  unfolding same_device refresh_payload
  device_matches s wallet id device_id version = (eq_iff device_id device_id).1 refl

  -- One refresh with a token of a version that is at most one behind.
  rotation_step :
      (now s w : ℕ) (db : Db jwt.Token) (wallet id device_id : String) (stored : StoredSession)
      → now < s + env.refresh_expires_in
      → get id db.sessions ≡ some stored
      → now < stored.expires_at
      → live (λ c. c.1) now (get id db.cooldowns) ≡ none
      → stored.token_version ≤ w + 1
      → let (db', tokens) =
          refresh_session jwt draw env now db (refresh_token s wallet id device_id w) device_id in
        let pair = sign_pair jwt draw env now wallet id device_id (stored.token_version + 1) in
        (tokens ≡ some pair)
        × (get id db'.sessions ≡ some (record stored { token_version = stored.token_version + 1 }))
        × (get id db'.cooldowns ≡ some (pair, now + 5))
  unfolding refresh_token unlocked locked refresh_payload access_payload
  rotation_step now s w db wallet id device_id stored fresh there alive cold recent =
      let p = refresh_payload jwt draw env s wallet id device_id w in
      let runs =
        refresh_session_runs jwt draw env now db device_id p (jwt.sign p) (verified now p fresh)
          (device_matches s wallet id device_id w)
        ∙ ap (unlocked jwt draw env now db device_id p) (
            cached_or_rotated_found jwt draw env now (locked jwt draw env now db device_id p)
              device_id p stored cold
              (live_now (λ x. x.expires_at) now stored (get id db.sessions) there alive)
            ∙ rotate_recent jwt draw env now (locked jwt draw env now db device_id p) device_id p
                stored (ground (arith, recent))) in
      rw (runs) (refl, get-put_self id _ db.sessions, get-put_self id _ db.cooldowns)

  -- A token of a version that is more than one behind, when no tokens are cached.
  rotation_refused :
      (now s w : ℕ) (db : Db jwt.Token) (wallet id device_id : String) (stored : StoredSession)
      → now < s + env.refresh_expires_in
      → get id db.sessions ≡ some stored
      → now < stored.expires_at
      → live (λ c. c.1) now (get id db.cooldowns) ≡ none
      → w + 1 < stored.token_version
      → (refresh_session jwt draw env now db (refresh_token s wallet id device_id w) device_id).1
        ≡ none
  unfolding refresh_token unlocked locked refresh_payload access_payload
  rotation_refused now s w db wallet id device_id stored fresh there alive cold old =
      let p = refresh_payload jwt draw env s wallet id device_id w in
      let held = locked jwt draw env now db device_id p in
      ap (λ r. r.1)
        (refresh_session_runs jwt draw env now db device_id p (jwt.sign p) (verified now p fresh)
            (device_matches s wallet id device_id w)
          ∙ ap (unlocked jwt draw env now db device_id p) (
              cached_or_rotated_found jwt draw env now held device_id p stored cold
                (live_now (λ x. x.expires_at) now stored (get id db.sessions) there alive)
              ∙ rotate_old jwt draw env now held device_id p stored (ground (arith, old))))

  -- What `issueSessionTokens` stores.
  unfoldable pub first_session : ℕ → String → String → StoredSession
  first_session t0 wallet device_id = record {
    wallet = wallet;
    device_id = device_id;
    token_version = 1;
    expires_at = t0 + 604800;
  }

  -- A session is issued and refreshed twice, with its newest token each time.
  pub two_rotations :
      (db : Db jwt.Token) (wallet id device_id : String) (t0 t1 t2 : ℕ)
      → get id db.cooldowns ≡ none
      → t0 ≤ t1
      → t1 + 5 ≤ t2
      → t2 < t0 + env.refresh_expires_in
      → t2 < t0 + 604800
      → let (db0, pair0) = issue_session_tokens jwt draw env t0 id db wallet device_id in
        let (db1, pair1) =
          refresh_session jwt draw env t1 db0 (refresh_token t0 wallet id device_id 1) device_id in
        let (db2, pair2) =
          refresh_session jwt draw env t2 db1 (refresh_token t1 wallet id device_id 2) device_id in
        (pair1 ≡ some (sign_pair jwt draw env t1 wallet id device_id 2))
        × (pair2 ≡ some (sign_pair jwt draw env t2 wallet id device_id 3))
        × (get id db2.sessions
            ≡ some (record (first_session t0 wallet device_id) { token_version = 3 }))
        × (get id db2.cooldowns ≡ some (sign_pair jwt draw env t2 wallet id device_id 3, t2 + 5))
  unfolding issue_session_tokens live first_session
  two_rotations db wallet id device_id t0 t1 t2 unused le1 le2 fresh week =
      let stored1 = first_session t0 wallet device_id in
      let db0 = (issue_session_tokens jwt draw env t0 id db wallet device_id).0 in
      let (first, there1, warm1) =
        rotation_step t1 t0 1 db0 wallet id device_id stored1 (omega (arith, le2, fresh))
          (get-put_self id stored1 db.sessions) (omega (arith, le2, week)) (rw (unused) refl)
          (omega arith) in
      let db1 =
        (refresh_session jwt draw env t1 db0 (refresh_token t0 wallet id device_id 1)
          device_id).0 in
      let (second, there2, warm2) =
        rotation_step t2 t1 2 db1 wallet id device_id (record stored1 { token_version = 2 })
          (omega (arith, le1, le2, fresh)) there1 (omega (arith, week))
          (live_past (λ c. c.1) t2 _ (get id db1.cooldowns) warm1 (omega (arith, le2)))
          (omega arith) in
      (first, second, there2, warm2)

  -- A session from its first tokens on: tokens are issued at `t0` under a new session id; the
  -- refresh token, used on its device within its lifetime and the session's seven days, gives
  -- tokens of version 2; the new refresh token, used five seconds later or more, gives tokens of
  -- version 3; and the first refresh token, used again five seconds later or more, is refused
  -- although it has not expired.
  pub refresh_session_revokes :
      (db : Db jwt.Token) (wallet id device_id : String) (t0 t1 t2 t3 : ℕ)
      → get id db.cooldowns ≡ none
      → t0 ≤ t1
      → t1 + 5 ≤ t2
      → t2 + 5 ≤ t3
      → t3 < t0 + env.refresh_expires_in
      → t3 < t0 + 604800
      → let (db0, pair0) = issue_session_tokens jwt draw env t0 id db wallet device_id in
        let (db1, pair1) = refresh_session jwt draw env t1 db0 pair0.refresh_token device_id in
        let token1 = (sign_pair jwt draw env t1 wallet id device_id 2).refresh_token in
        let (db2, pair2) = refresh_session jwt draw env t2 db1 token1 device_id in
        (pair1 ≡ some (sign_pair jwt draw env t1 wallet id device_id 2))
        × (pair2 ≡ some (sign_pair jwt draw env t2 wallet id device_id 3))
        × ((refresh_session jwt draw env t3 db2 pair0.refresh_token device_id).1 ≡ none)
  unfolding issue_session_tokens sign_pair refresh_token live first_session
  refresh_session_revokes db wallet id device_id t0 t1 t2 t3 unused le1 le2 le3 fresh week =
      let (first, second, there2, warm2) =
        two_rotations db wallet id device_id t0 t1 t2 unused le1 le2 (omega (arith, le3, fresh))
          (omega (arith, le3, week)) in
      let db0 = (issue_session_tokens jwt draw env t0 id db wallet device_id).0 in
      let db1 =
        (refresh_session jwt draw env t1 db0 (refresh_token t0 wallet id device_id 1)
          device_id).0 in
      let db2 =
        (refresh_session jwt draw env t2 db1 (refresh_token t1 wallet id device_id 2)
          device_id).0 in
      (
        first,
        second,
        rotation_refused t3 t0 1 db2 wallet id device_id
            (record (first_session t0 wallet device_id) { token_version = 3 })
            (omega (arith, fresh)) there2 (omega (arith, week))
            (live_past (λ c. c.1) t3 _ (get id db2.cooldowns) warm2 (omega (arith, le3)))
            (omega arith),
      )
