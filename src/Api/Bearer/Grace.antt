-- ===== src/Api/Bearer/Grace.antt =====
-- src/api/middleware/auth.ts: when a signed token is admitted.
use iot_billing_backend.Common.{
  ℕ, ◌+◌, ◌≡◌, refl, ap, ◌∙◌, Bool, true, false, Option, none, some, List, ltb, leb, if◌then◌else◌,
  arith, Bool-cases, inl, inr,
}
use iot_billing_backend.Common.Dict.{Dict, get}
use iot_billing_backend.Api.Session.{SessionPayload, Jwt, Env, live}
use iot_billing_backend.Api.Bearer.{
  Verdict, admitted, unauthorized, too_many_requests, bearer_token, refresh_hint, admit_expired,
  admit_signed, admit_token, verify_jwt,
}

-- The session that a verdict attaches to the request.
unfoldable pub session_of : Verdict → Option SessionPayload
session_of (admitted p hint expiring) = some p
session_of unauthorized = none
session_of too_many_requests = none

-- The description: a token is admitted until it expires, and from then to the end of the grace
-- period while no refresh of its session holds the lock.
unfoldable pub is_admitted : Env → ℕ → Dict ℕ → SessionPayload → Bool
is_admitted env now locks p = elim (live (λ expiry. expiry) now (get p.session_id locks)) [
  | none ↦ leb now (p.exp + env.token_grace_period_seconds)
  | some expiry ↦ ltb now p.exp
]

module _ (jwt : Jwt) where
  admit_token_valid :
      (env : Env) (now : ℕ) (locks : Dict ℕ) (p : SessionPayload)
      → ltb now p.exp ≡ true
      → admit_token jwt env now locks (jwt.sign p)
        ≡ admitted p (refresh_hint now p.exp env.token_refresh_hint_seconds) false
  unfolding admit_token
  admit_token_valid env now locks p lt = rw (jwt.verify_sign now false p, admit_token, lt) refl

  admit_token_expired :
      (env : Env) (now : ℕ) (locks : Dict ℕ) (p : SessionPayload)
      → ltb now p.exp ≡ false
      → admit_token jwt env now locks (jwt.sign p) ≡ admit_expired env now locks p
  unfolding admit_token admit_signed
  admit_token_expired env now locks p le =
      rw (jwt.verify_sign now false p, admit_token, le, jwt.verify_sign now true p) refl

  session_of-admit_expired :
      (env : Env) (now : ℕ) (locks : Dict ℕ) (p : SessionPayload)
      → ltb now p.exp ≡ false
      → session_of (admit_expired env now locks p)
        ≡ (if is_admitted env now locks p then some p else none)
  unfolding admit_expired is_admitted session_of
  session_of-admit_expired env now locks p le = ground (arith, le)

  is_admitted_early :
      (env : Env) (now : ℕ) (locks : Dict ℕ) (p : SessionPayload)
      → ltb now p.exp ≡ true
      → is_admitted env now locks p ≡ true
  unfolding is_admitted
  is_admitted_early env now locks p lt = ground (arith, lt)

  verify_jwt_token :
      (env : Env) (now : ℕ) (locks : Dict ℕ) (header text : List ℕ)
      → bearer_token (some header) ≡ some text
      → verify_jwt jwt env now locks (some header) ≡ admit_token jwt env now locks (jwt.read text)
  unfolding verify_jwt
  verify_jwt_token env now locks header text carries = rw (carries, verify_jwt) refl

  -- A request whose header carries a token that was signed gets the token's session exactly when
  -- the token has not expired, or expired no longer ago than the grace period while no refresh of
  -- its session holds the lock; nothing else counts, so it gets it as often as it is sent.
  pub verify_jwt_iff :
      (env : Env) (now : ℕ) (locks : Dict ℕ) (header text : List ℕ) (p : SessionPayload)
      → bearer_token (some header) ≡ some text
      → jwt.read text ≡ jwt.sign p
      → session_of (verify_jwt jwt env now locks (some header))
        ≡ (if is_admitted env now locks p then some p else none)
  unfolding session_of
  verify_jwt_iff env now locks header text p carries signed =
      let runs =
        verify_jwt_token env now locks header text carries
        ∙ ap (λ t. admit_token jwt env now locks t) signed in
      elim (Bool-cases (ltb now p.exp)) [
        | inl lt ↦
            ap session_of (runs ∙ admit_token_valid env now locks p lt)
            ∙ rw (is_admitted_early env now locks p lt) refl
        | inr le ↦
            ap session_of (runs ∙ admit_token_expired env now locks p le)
            ∙ session_of-admit_expired env now locks p le
      ]
