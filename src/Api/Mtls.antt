-- ===== src/Api/Mtls.antt =====
-- src/api/gateway/mtls_verifier.ts: `MtlsGatewayVerifier`. Times are in seconds; what the certificate
-- says and the responder's reply are arguments.
pub mod Trust
pub mod Revocation
mod Tests
use iot_billing_backend.Common.{
  ℕ, ◌+◌, String, Bool, true, false, not, ◌&&◌, ◌||◌, Option, none, some, List, [], ◌∷◌, ltb,
  if◌then◌else◌,
}
use iot_billing_backend.Common.Dict.{Dict, get, put, delete}

pub record Cert : Type 0 where
  pub serial : String
  pub valid_from : ℕ
  pub valid_to : ℕ
  pub has_ocsp_url : Bool

-- The two values of a cache entry.
pub data Status : Type 0 where
  revoked : Status
  valid : Status

pub data Verdict : Type 0 where
  verified : Verdict
  outside_window : Verdict
  revoked_in_cache : Verdict
  not_in_whitelist : Verdict
  revoked_in_database : Verdict
  ocsp_failed : Verdict
  parse_error : Verdict

-- What the responder does within its 200 ms: nothing, or a reply with its `ok` and whether its text
-- has "REVOKED".
abbrev pub OcspReply : Type 0
OcspReply = Option (Bool × Bool)

-- The cache in Redis, each entry with the time when it expires, and the database's column `revoked`.
pub record Registry : Type 0 where
  pub cache : Dict (Status × ℕ)
  pub certificates : Dict Bool

abbrev pub cache_seconds : ℕ
cache_seconds = 3600

unfoldable pub check_ocsp : Cert → OcspReply → Bool
check_ocsp cert none = not cert.has_ocsp_url
check_ocsp cert (some (is_ok, says_revoked)) = not cert.has_ocsp_url || (is_ok && not says_revoked)

unfoldable pub cached : ℕ → Option (Status × ℕ) → Option Status
cached now none = none
cached now (some (status, expires)) = if ltb now expires then some status else none

unfoldable pub after_ocsp : Bool → Verdict
after_ocsp true = verified
after_ocsp false = ocsp_failed

unfoldable pub remember : Registry → ℕ → Cert → Status → Registry
remember s now cert status = record s {
  cache = put cert.serial (status, now + cache_seconds) s.cache;
}

unfoldable pub check_database : Registry → ℕ → Cert → OcspReply → Option Bool → Verdict × Registry
check_database s now cert ocsp none = (not_in_whitelist, s)
check_database s now cert ocsp (some true) = (revoked_in_database, remember s now cert revoked)
check_database s now cert ocsp (some false) =
    (after_ocsp (check_ocsp cert ocsp), remember s now cert valid)

unfoldable pub check_cached : Registry → ℕ → Cert → OcspReply → Option Status → Verdict × Registry
check_cached s now cert ocsp (some revoked) = (revoked_in_cache, s)
check_cached s now cert ocsp (some valid) = (after_ocsp (check_ocsp cert ocsp), s)
check_cached s now cert ocsp none = check_database s now cert ocsp (get cert.serial s.certificates)

-- `verifyConnection`; none is a certificate that does not parse.
unfoldable pub verify_connection : Registry → ℕ → Option Cert → OcspReply → Verdict × Registry
verify_connection s now none ocsp = (parse_error, s)
verify_connection s now (some cert) ocsp =
    let checked = check_cached s now cert ocsp (cached now (get cert.serial s.cache)) in
    if ltb now cert.valid_from || ltb cert.valid_to now then (outside_window, s) else checked

-- What happens to the registry: a connection, a change of the database, a notification of one.
pub data Event : Type 0 where
  connecting : ℕ → Option Cert → OcspReply → Event
  changing : String → Bool → Event
  notified : String → Event

unfoldable pub handle : Registry → Event → Registry
handle s (connecting now cert ocsp) = (verify_connection s now cert ocsp).1
handle s (changing serial is_revoked) = record s {
  certificates = put serial is_revoked s.certificates;
}
handle s (notified serial) = record s { cache = delete serial s.cache }

unfoldable pub handle_all : Registry → List Event → Registry
handle_all s [] = s
handle_all s (e ∷ es) = handle_all (handle s e) es
