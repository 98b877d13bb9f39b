-- ===== src/Api/Mtls/Revocation.antt =====
-- src/api/gateway/mtls_verifier.ts: how long a revoked certificate is still admitted.
use iot_billing_backend.Common.{
  ℕ, ◌+◌, ◌≤◌, ◌<◌, ◌≡◌, ◌≢◌, refl, String, true, ◌||◌, Option, none, some, List, [], ◌∷◌, ltb,
  eq_iff, arith, All, Bool-cases, inl, inr,
}
use iot_billing_backend.Common.Dict.{get, get-put_self, get-delete}
use iot_billing_backend.Api.Mtls.{
  Cert, Status, revoked, valid, verified, OcspReply, Registry, cache_seconds, cached,
  check_database, check_cached, verify_connection, Event, changing, notified, handle, handle_all,
}
use iot_billing_backend.Api.Mtls.Trust.{
  valid_until, trusted_until, IsUntil, Keeps, until_trust, kept_trust, changing_trust,
}

empty_trust : (k : String) (s : Registry) (b : ℕ) → s.cache ≡ [] → trusted_until k s ≤ b
unfolding trusted_until valid_until get
empty_trust k s b empty = rw (empty) (omega arith)

until-All :
    (k : String) (t : ℕ) (s : Registry) (es : List Event)
    → All (IsUntil t) es
    → trusted_until k s ≤ t + cache_seconds
    → trusted_until k (handle_all s es) ≤ t + cache_seconds
unfolding handle_all
until-All k t s [] early h = h
until-All k t s (e ∷ es) (first, early) h =
    until-All k t (handle s e) es early (until_trust k t s e first h)

cached_until :
    (now : ℕ) (entry : Option (Status × ℕ))
    → cached now entry ≡ some valid
    → now < valid_until entry
unfolding cached valid_until
cached_until now none live = absurd (cc live)
cached_until now (some (revoked, t)) live = ground (arith, live)
cached_until now (some (valid, t)) live = ground (arith, live)

cached_refused :
    (s : Registry) (now : ℕ) (cert : Cert) (ocsp : OcspReply) (c : Option Status)
    → get cert.serial s.certificates ≡ some true
    → c ≢ some valid
    → (check_cached s now cert ocsp c).0 ≢ verified
unfolding check_cached check_database
cached_refused s now cert ocsp (some revoked) row stale = ground arith
cached_refused s now cert ocsp (some valid) row stale = absurd (stale refl)
cached_refused s now cert ocsp none row stale = rw (row) (ground arith)

refused :
    (s : Registry) (now : ℕ) (cert : Cert) (ocsp : OcspReply)
    → get cert.serial s.certificates ≡ some true
    → trusted_until cert.serial s ≤ now
    → (verify_connection s now (some cert) ocsp).0 ≢ verified
unfolding verify_connection trusted_until
refused s now cert ocsp row late =
    let entry = get cert.serial s.cache in
    elim (Bool-cases (ltb now cert.valid_from || ltb cert.valid_to now)) [
      | inl outside ↦ rw (outside) (ground arith)
      | inr inside ↦ rw (inside) (
          cached_refused s now cert ocsp (cached now entry) row
            (λ live. omega (arith, cached_until now entry live, late)))
    ]

notified_ends : (k : String) (s : Registry) → trusted_until k (handle s (notified k)) ≤ 0
unfolding handle trusted_until valid_until
notified_ends k s = rw (get-delete k k s.cache, (eq_iff k k).1 refl) (omega arith)

-- In a registry that calls the certificate revoked and trusts it until a time, it is refused from
-- that time on, whatever keeps the revocation comes in between.
kept-All_refuses :
    (b : ℕ) (s : Registry) (es : List Event) (now : ℕ) (cert : Cert) (ocsp : OcspReply)
    → All (Keeps cert.serial) es
    → get cert.serial s.certificates ≡ some true
    → trusted_until cert.serial s ≤ b
    → b ≤ now
    → (verify_connection (handle_all s es) now (some cert) ocsp).0 ≢ verified
unfolding handle_all
kept-All_refuses b s [] now cert ocsp keeps row h late =
    refused s now cert ocsp row (omega (arith, h, late))
kept-All_refuses b s (e ∷ es) now cert ocsp (first, keeps) row h late =
    let (row', h') = kept_trust cert.serial b s e first row h in
    kept-All_refuses b (handle s e) es now cert ocsp keeps row' h' late

-- Whatever happened up to the time `t`, at which the database revokes a certificate, and whatever
-- happens after it short of a reinstatement: an hour later the certificate is refused; and if the
-- revocation is notified it is refused at once.
pub revoked_within_hour :
    (s : Registry) (before after : List Event) (t now now' : ℕ) (cert : Cert) (ocsp : OcspReply)
    → s.cache ≡ []
    → All (IsUntil t) before
    → All (Keeps cert.serial) after
    → t + cache_seconds ≤ now
    → let r = handle (handle_all s before) (changing cert.serial true) in
      ((verify_connection (handle_all r after) now (some cert) ocsp).0 ≢ verified)
      × ((verify_connection (handle_all r (notified cert.serial ∷ after)) now' (some cert) ocsp).0
          ≢ verified)
unfolding handle handle_all
revoked_within_hour s before after t now now' cert ocsp empty early keeps late =
    let m = handle_all s before in
    let r = handle m (changing cert.serial true) in
    let row = get-put_self cert.serial true m.certificates in
    let trust =
      until-All cert.serial t s before early
        (empty_trust cert.serial s (t + cache_seconds) empty) in
    (
      kept-All_refuses (t + cache_seconds) r after now cert ocsp keeps row
          (changing_trust cert.serial cert.serial true m (t + cache_seconds) trust) late,
      kept-All_refuses 0 (handle r (notified cert.serial)) after now' cert ocsp keeps row
          (notified_ends cert.serial r) (omega arith),
    )
