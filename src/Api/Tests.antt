-- ===== src/Api/Tests.antt =====
-- Runs of the theorems about src/api on small inputs.
use iot_billing_backend.Common.{
  ◌+◌, ◌-◌, ◌*◌, ℕ, ◌≤◌, ◌≡◌, refl, String, Bool, true, Option, none, some, List, [], ◌∷◌, arith,
  ◌||◌, ltb, if◌then◌else◌,
}
use iot_billing_backend.Common.Dict.{get, put}
use iot_billing_backend.Api.Session.{
  SessionPayload, Jwt, Env, Db, sign_pair, issue_session_tokens, refresh_session,
}
use iot_billing_backend.Api.Session.Rotation.{refresh_session_revokes}
use iot_billing_backend.Api.Session.Cooldown.{revoked_in_cooldown}
use iot_billing_backend.Api.Challenge.{Attempt, challenging, verifying, attempt_all}
use iot_billing_backend.Api.Challenge.SingleUse.{attempt_all_single_use}
use iot_billing_backend.Api.AuthLimiter.{apply_auth_rate_limiting, current, judge}
use iot_billing_backend.Api.AuthLimiter.Window as AuthWindow
use iot_billing_backend.Api.AuthLimiter.Window.{apply_all, window_limit, Until}
use iot_billing_backend.Api.RateLimiter.{DeviceProfile, free, check_limit, unit}
use iot_billing_backend.Api.RateLimiter.Conformance.{
  passed, check_all, burst_max, burst_rate, check_all_conforms, Sorted,
}
use iot_billing_backend.Api.Bearer.{
  verify_jwt, bearer_token, trimmed, after_prefix, nonempty, trim, trim_end, trim_start, is_space,
}
use iot_billing_backend.Api.Bearer.Grace.{session_of, is_admitted, verify_jwt_iff}

abbrev env : Env
env = record {
  access_token_ttl_seconds = 900;
  access_token_jitter_seconds = 60;
  refresh_expires_in = 604800;
  token_grace_period_seconds = 30;
  token_refresh_hint_seconds = 60;
}

-- One payload, and a token library that knows its token alone: a text of one code.
abbrev payload : SessionPayload
payload = record {
  sub = "w";
  wallet = "w";
  session_id = "s";
  version = 1;
  device_id = some "d";
  iat = 0;
  exp = 100;
}

-- A token library whose tokens are the payloads: the text `T` is the token of `payload`.
abbrev verify_payload : ℕ → Bool → SessionPayload → Option SessionPayload
verify_payload now ignore_expiration p = if ignore_expiration || ltb now p.exp then some p else none

abbrev jwt : Jwt
jwt = record {
  Token = SessionPayload;
  read = λ text. payload;
  sign = λ p. p;
  verify = verify_payload;
  verify_sign = λ now ignore_expiration p. refl;
}

abbrev draw : String → ℕ → ℕ
draw id version = version

abbrev db : Db SessionPayload
db = record { sessions = []; cooldowns = []; refresh_locks = [] }

unused : get "s" db.cooldowns ≡ none
unfolding get
unused = refl

refresh_session_revokes_example :
    let (db0, pair0) = issue_session_tokens jwt draw env 0 "s" db "w" "d" in
    let (db1, pair1) = refresh_session jwt draw env 10 db0 pair0.refresh_token "d" in
    let token1 = (sign_pair jwt draw env 10 "w" "s" "d" 2).refresh_token in
    let (db2, pair2) = refresh_session jwt draw env 20 db1 token1 "d" in
    (pair1 ≡ some (sign_pair jwt draw env 10 "w" "s" "d" 2))
    × (pair2 ≡ some (sign_pair jwt draw env 20 "w" "s" "d" 3))
    × ((refresh_session jwt draw env 30 db2 pair0.refresh_token "d").1 ≡ none)
refresh_session_revokes_example =
    refresh_session_revokes jwt draw env db "w" "s" "d" 0 10 20 30 unused (omega arith)
      (omega arith) (omega arith) (omega arith) (omega arith)

revoked_in_cooldown_example :
    let (db0, pair0) = issue_session_tokens jwt draw env 0 "s" db "w" "d" in
    let (db1, pair1) = refresh_session jwt draw env 10 db0 pair0.refresh_token "d" in
    let token1 = (sign_pair jwt draw env 10 "w" "s" "d" 2).refresh_token in
    let (db2, pair2) = refresh_session jwt draw env 20 db1 token1 "d" in
    (pair1 ≡ some (sign_pair jwt draw env 10 "w" "s" "d" 2))
    × (pair2 ≡ some (sign_pair jwt draw env 20 "w" "s" "d" 3))
    × ((refresh_session jwt draw env 22 db2 pair0.refresh_token "d").1 ≡ pair2)
    × ((refresh_session jwt draw env 30 db2 pair0.refresh_token "d").1 ≡ none)
revoked_in_cooldown_example =
    revoked_in_cooldown jwt draw env db "w" "s" "d" 0 10 20 22 30 unused (omega arith) (omega arith)
      (omega arith) (omega arith) (omega arith) (omega arith) (omega arith)

abbrev requests : List Attempt
requests =
    challenging 0 "n1" "w"
    ∷ verifying 5 "w" "sig"
    ∷ verifying 6 "w" "sig"
    ∷ challenging 7 "n2" "w"
    ∷ challenging 8 "n3" "w"
    ∷ []

attempt_all_single_use_example :
    (attempt_all
      (λ w. true)
      (λ n s w. true)
      60
      "w"
      (record { db = []; granted = 0; accepted = 0 })
      requests).accepted
    ≤ (attempt_all
        (λ w. true)
        (λ n s w. true)
        60
        "w"
        (record { db = []; granted = 0; accepted = 0 })
        requests).granted
attempt_all_single_use_example = attempt_all_single_use (λ w. true) (λ n s w. true) 60 "w" requests

-- `Bearer T`
abbrev header : List ℕ
header = 66 ∷ 101 ∷ 97 ∷ 114 ∷ 101 ∷ 114 ∷ 32 ∷ 84 ∷ []

header_token : bearer_token (some header) ≡ some (84 ∷ [])
unfolding bearer_token trimmed after_prefix nonempty trim trim_end trim_start is_space
header_token = refl

verify_jwt_iff_example :
    session_of (verify_jwt jwt env 120 [] (some header))
    ≡ (if is_admitted env 120 [] payload then some payload else none)
verify_jwt_iff_example = verify_jwt_iff jwt env 120 [] header (84 ∷ []) payload header_token refl

abbrev device : DeviceProfile
device = record { billing_tier = free; historical_compliance = 990 }

check_all_conforms_example :
    let (b, r) = check_limit 1000 5000 device none in
    let (b', n) = check_all 1000 device (5000 ∷ 5100 ∷ 70000 ∷ []) b in
    (passed 1000 r + n) * unit 1000 + b'.tokens
    ≤ burst_max 1000 device * unit 1000 + (b'.last_refill - 5000) * burst_rate 1000 device
unfolding Sorted
check_all_conforms_example =
    check_all_conforms 1000 device 5000 (5000 ∷ 5100 ∷ 70000 ∷ [])
      (omega arith, (omega arith, (omega arith, tt)))

-- Nine attempts within two milliseconds, at the end of one window and the start of the next.
nine_attempts :
    apply_all "1.2.3.4"
      (0 ∷ 60000 ∷ 60000 ∷ 60000 ∷ 60000 ∷ 60001 ∷ 60001 ∷ 60001 ∷ 60001 ∷ 60001 ∷ [])
      []
    ≡ 10
unfolding apply_all apply_auth_rate_limiting get put current judge AuthWindow.passed
nine_attempts = refl
