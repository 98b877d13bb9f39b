-- ===== src/Api/Bearer.antt =====
-- src/api/middleware/auth.ts: `verifyJwt`, which admits a request by its bearer token. Times are
-- Unix seconds.
pub mod Grace
use iot_billing_backend.Common.{
  ℕ, ◌+◌, ◌-◌, String, Bool, true, false, not, ◌||◌, ◌&&◌, Option, none, some, List, [], ◌∷◌, ◌==◌,
  ltb, leb, if◌then◌else◌,
}
use iot_billing_backend.Common.Dict.{Dict, get}
use iot_billing_backend.Api.Session.{SessionPayload, Jwt, Env, live}

-- What the request gets: the session attached, with `X-Token-Expires-In` when the refresh hint is
-- set and with `X-Token-Expiring`; or a status.
pub data Verdict : Type 0 where
  admitted : SessionPayload → Option ℕ → Bool → Verdict
  unauthorized : Verdict
  too_many_requests : Verdict

-- The white space that `String.prototype.trim` removes, by character code.
unfoldable pub is_space : ℕ → Bool
is_space c =
    (leb 9 c && leb c 13)
    || (c == 32)
    || (c == 160)
    || (c == 5760)
    || (leb 8192 c && leb c 8202)
    || (c == 8232)
    || (c == 8233)
    || (c == 8239)
    || (c == 8287)
    || (c == 12288)
    || (c == 65279)

unfoldable pub trim_start : List ℕ → List ℕ
trim_start [] = []
trim_start (c ∷ cs) = let rest = trim_start cs in if is_space c then rest else c ∷ cs

unfoldable pub trim_end : List ℕ → List ℕ
trim_end [] = []
trim_end (c ∷ cs) = elim (trim_end cs) [
  | [] ↦ if is_space c then [] else c ∷ []
  | d ∷ ds ↦ c ∷ d ∷ ds
]

unfoldable pub trim : List ℕ → List ℕ
trim cs = trim_end (trim_start cs)

-- The character codes of `Bearer `, and what follows them.
abbrev pub bearer : List ℕ
bearer = 66 ∷ 101 ∷ 97 ∷ 114 ∷ 101 ∷ 114 ∷ 32 ∷ []

unfoldable pub after_prefix : List ℕ → List ℕ → Option (List ℕ)
after_prefix [] cs = some cs
after_prefix (p ∷ ps) [] = none
after_prefix (p ∷ ps) (c ∷ cs) = if p == c then after_prefix ps cs else none

-- The bearer token of the Authorization header, if the header is there, well-formed and not empty.
unfoldable pub nonempty : List ℕ → Option (List ℕ)
nonempty [] = none
nonempty (c ∷ cs) = some (c ∷ cs)

unfoldable pub trimmed : Option (List ℕ) → Option (List ℕ)
trimmed none = none
trimmed (some cs) = nonempty (trim cs)

unfoldable pub bearer_token : Option (List ℕ) → Option (List ℕ)
bearer_token none = none
bearer_token (some header) = trimmed (after_prefix bearer header)

-- `setRefreshHintHeaders`, for a token that has not expired.
unfoldable pub refresh_hint : ℕ → ℕ → ℕ → Option ℕ
refresh_hint now exp window = if leb exp (now + window) then some (exp - now) else none

-- A token that is no longer valid as it is, but signed: `locks` are the refresh locks of Redis.
unfoldable pub admit_expired : Env → ℕ → Dict ℕ → SessionPayload → Verdict
admit_expired env now locks p = elim (live (λ expiry. expiry) now (get p.session_id locks)) [
  | some expiry ↦ too_many_requests
  | none ↦
      if leb p.exp now && leb now (p.exp + env.token_grace_period_seconds)
      then admitted p none true
      else unauthorized
]

unfoldable pub admit_signed : Env → ℕ → Dict ℕ → Option SessionPayload → Verdict
admit_signed env now locks none = unauthorized
admit_signed env now locks (some p) = admit_expired env now locks p

module _ (jwt : Jwt) where
  unfoldable pub admit_token : Env → ℕ → Dict ℕ → jwt.Token → Verdict
  admit_token env now locks token = elim (jwt.verify now false token) [
    | some p ↦ admitted p (refresh_hint now p.exp env.token_refresh_hint_seconds) false
    | none ↦ admit_signed env now locks (jwt.verify now true token)
  ]

  unfoldable pub verify_jwt : Env → ℕ → Dict ℕ → Option (List ℕ) → Verdict
  verify_jwt env now locks header = elim (bearer_token header) [
    | none ↦ unauthorized
    | some text ↦ admit_token env now locks (jwt.read text)
  ]
