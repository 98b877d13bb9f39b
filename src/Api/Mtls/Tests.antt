-- ===== src/Api/Mtls/Tests.antt =====
-- src/api/gateway/mtls_verifier.ts: a certificate that is admitted, then revoked.
use iot_billing_backend.Common.{
  ◌≡◌, ◌≢◌, eq_iff, refl, true, false, none, some, List, [], ◌∷◌, arith,
}
use iot_billing_backend.Common.Dict.{get, put}
use iot_billing_backend.Api.Mtls.{
  Cert, verified, Registry, verify_connection, Event, connecting, changing, notified, handle,
  handle_all, check_cached, check_database, cached, after_ocsp, check_ocsp, remember,
}
use iot_billing_backend.Api.Mtls.Trust.{IsUntil, Keeps}
use iot_billing_backend.Api.Mtls.Revocation.{revoked_within_hour}

abbrev meter : Cert
meter = record { serial = "0a"; valid_from = 0; valid_to = 90000; has_ocsp_url = false }

abbrev registry : Registry
registry = record { cache = []; certificates = ("0a", false) ∷ [] }

abbrev before : List Event
before = connecting 100 (some meter) none ∷ []

abbrev after : List Event
after = connecting 1000 (some meter) none ∷ changing "0b" false ∷ []

-- The revoked certificate is still admitted from the cache.
still_admitted_test :
    (verify_connection
      (handle (handle_all registry before) (changing "0a" true))
      3000
      (some meter)
      none).0
    ≡ verified
unfolding verify_connection handle_all handle check_cached check_database cached after_ocsp
    check_ocsp remember get put
still_admitted_test = refl

revoked_within_hour_example :
    let r = handle (handle_all registry before) (changing "0a" true) in
    ((verify_connection (handle_all r after) 5000 (some meter) none).0 ≢ verified)
    × ((verify_connection (handle_all r (notified "0a" ∷ after)) 300 (some meter) none).0
        ≢ verified)
unfolding IsUntil Keeps
revoked_within_hour_example =
    revoked_within_hour registry before after 200 5000 300 meter none refl (omega arith, tt)
      (tt, ((λ same. ground (arith, same, eq_iff "0b" "0a")), tt)) (omega arith)
