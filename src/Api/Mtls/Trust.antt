-- ===== src/Api/Mtls/Trust.antt =====
-- src/api/gateway/mtls_verifier.ts: until when the cache calls a certificate valid, event by event.
use iot_billing_backend.Common.{
  ℕ, ◌+◌, ◌≤◌, ◌≡◌, refl, String, Bool, true, false, ◌||◌, Option, none, some, ltb, if◌then◌else◌,
  str_eq, eq_iff, arith, Bool-cases, inl, inr,
}
use iot_billing_backend.Common.Dict.{get, get-put, get-delete}
use iot_billing_backend.Api.Mtls.{
  Cert, Status, revoked, valid, OcspReply, Registry, cache_seconds, cached, remember,
  check_database, check_cached, verify_connection, Event, connecting, changing, notified, handle,
}

-- Until when the cache calls a certificate valid.
unfoldable pub valid_until : Option (Status × ℕ) → ℕ
valid_until none = 0
valid_until (some (revoked, t)) = 0
valid_until (some (valid, t)) = t

unfoldable pub trusted_until : String → Registry → ℕ
trusted_until k s = valid_until (get k s.cache)

-- What a connection does to the trust in a certificate: it stays, ends, or is renewed; the latter
-- only if the database does not call it revoked.
remember_trust :
    (k : String) (s : Registry) (now : ℕ) (cert : Cert) (status : Status)
    → trusted_until k (remember s now cert status) ≡ (
        if str_eq cert.serial k
        then valid_until (some (status, now + cache_seconds))
        else trusted_until k s)
unfolding trusted_until remember
remember_trust k s now cert status = elim (Bool-cases (str_eq cert.serial k)) [
  | inl same ↦ rw (get-put cert.serial k (status, now + cache_seconds) s.cache, same) refl
  | inr different ↦ rw (get-put cert.serial k (status, now + cache_seconds) s.cache, different) refl
]

-- Nothing that happens up to a time makes the trust last more than an hour after it.
unfoldable pub IsUntil : ℕ → Event → Type 0
IsUntil t (connecting now cert ocsp) = now ≤ t
IsUntil t (changing serial is_revoked) = Unit {0}
IsUntil t (notified serial) = Unit {0}

check_database_trust :
    (k : String) (s : Registry) (now b : ℕ) (cert : Cert) (ocsp : OcspReply) (row : Option Bool)
    → trusted_until k s ≤ b
    → (row ≡ some false → cert.serial ≡ k → now + cache_seconds ≤ b)
    → trusted_until k (check_database s now cert ocsp row).1 ≤ b
unfolding check_database valid_until
check_database_trust k s now b cert ocsp none h renewed = h
check_database_trust k s now b cert ocsp (some true) h renewed =
    ground (arith, h, remember_trust k s now cert revoked)
check_database_trust k s now b cert ocsp (some false) h renewed =
    ground (arith, h, renewed refl, eq_iff cert.serial k, remember_trust k s now cert valid)

check_cached_trust :
    (k : String) (s : Registry) (now b : ℕ) (cert : Cert) (ocsp : OcspReply) (c : Option Status)
    → trusted_until k s ≤ b
    → (get cert.serial s.certificates ≡ some false → cert.serial ≡ k → now + cache_seconds ≤ b)
    → trusted_until k (check_cached s now cert ocsp c).1 ≤ b
unfolding check_cached
check_cached_trust k s now b cert ocsp (some revoked) h renewed = h
check_cached_trust k s now b cert ocsp (some valid) h renewed = h
check_cached_trust k s now b cert ocsp none h renewed =
    check_database_trust k s now b cert ocsp (get cert.serial s.certificates) h renewed

verify_trust :
    (k : String) (s : Registry) (now b : ℕ) (cert : Cert) (ocsp : OcspReply)
    → trusted_until k s ≤ b
    → (get cert.serial s.certificates ≡ some false → cert.serial ≡ k → now + cache_seconds ≤ b)
    → trusted_until k (verify_connection s now (some cert) ocsp).1 ≤ b
unfolding verify_connection
verify_trust k s now b cert ocsp h renewed =
    elim (Bool-cases (ltb now cert.valid_from || ltb cert.valid_to now)) [
      | inl outside ↦ rw (outside) h
      | inr inside ↦
          rw (inside) (
            check_cached_trust k s now b cert ocsp (cached now (get cert.serial s.cache)) h renewed)
    ]

-- The event does not take a revocation back.
unfoldable pub Keeps : String → Event → Type 0
Keeps k (connecting now cert ocsp) = Unit {0}
Keeps k (changing serial is_revoked) = serial ≡ k → is_revoked ≡ true
Keeps k (notified serial) = Unit {0}

notified_trust :
    (k serial : String) (s : Registry) (b : ℕ)
    → trusted_until k s ≤ b
    → trusted_until k (handle s (notified serial)) ≤ b
unfolding handle trusted_until valid_until
notified_trust k serial s b h = elim (Bool-cases (str_eq serial k)) [
  | inl same ↦ rw (get-delete serial k s.cache, same) (omega arith)
  | inr different ↦ rw (get-delete serial k s.cache, different) h
]

pub changing_trust :
    (k serial : String) (is_revoked : Bool) (s : Registry) (b : ℕ)
    → trusted_until k s ≤ b
    → trusted_until k (handle s (changing serial is_revoked)) ≤ b
unfolding handle trusted_until
changing_trust k serial is_revoked s b h = h

pub until_trust :
    (k : String) (t : ℕ) (s : Registry) (e : Event)
    → IsUntil t e
    → trusted_until k s ≤ t + cache_seconds
    → trusted_until k (handle s e) ≤ t + cache_seconds
unfolding handle IsUntil verify_connection
until_trust k t s (connecting now none ocsp) early h = h
until_trust k t s (connecting now (some cert) ocsp) early h =
    verify_trust k s now (t + cache_seconds) cert ocsp h (λ row same. omega (arith, early))
until_trust k t s (changing serial is_revoked) early h =
    changing_trust k serial is_revoked s (t + cache_seconds) h
until_trust k t s (notified serial) early h = notified_trust k serial s (t + cache_seconds) h

database_kept :
    (s : Registry) (now : ℕ) (cert : Cert) (ocsp : OcspReply) (row : Option Bool)
    → (check_database s now cert ocsp row).1.certificates ≡ s.certificates
unfolding check_database remember
database_kept s now cert ocsp none = refl
database_kept s now cert ocsp (some true) = refl
database_kept s now cert ocsp (some false) = refl

cached_kept :
    (s : Registry) (now : ℕ) (cert : Cert) (ocsp : OcspReply) (c : Option Status)
    → (check_cached s now cert ocsp c).1.certificates ≡ s.certificates
unfolding check_cached
cached_kept s now cert ocsp (some revoked) = refl
cached_kept s now cert ocsp (some valid) = refl
cached_kept s now cert ocsp none = database_kept s now cert ocsp (get cert.serial s.certificates)

certificates_kept :
    (s : Registry) (now : ℕ) (cert : Option Cert) (ocsp : OcspReply)
    → (verify_connection s now cert ocsp).1.certificates ≡ s.certificates
unfolding verify_connection
certificates_kept s now none ocsp = refl
certificates_kept s now (some cert) ocsp =
    elim (Bool-cases (ltb now cert.valid_from || ltb cert.valid_to now)) [
      | inl outside ↦ rw (outside) refl
      | inr inside ↦
          rw (inside) (cached_kept s now cert ocsp (cached now (get cert.serial s.cache)))
    ]

pub kept_trust :
    (k : String) (b : ℕ) (s : Registry) (e : Event)
    → Keeps k e
    → get k s.certificates ≡ some true
    → trusted_until k s ≤ b
    → (get k (handle s e).certificates ≡ some true) × (trusted_until k (handle s e) ≤ b)
unfolding handle Keeps verify_connection
kept_trust k b s (connecting now none ocsp) keeps row h = (row, h)
kept_trust k b s (connecting now (some cert) ocsp) keeps row h = (
  cc (certificates_kept s now (some cert) ocsp, row),
  verify_trust k s now b cert ocsp h (λ live same. absurd (cc (live, same, row))),
)
kept_trust k b s (changing serial is_revoked) keeps row h = (
  ground (arith, row, keeps, eq_iff serial k, get-put serial k is_revoked s.certificates),
  changing_trust k serial is_revoked s b h,
)
kept_trust k b s (notified serial) keeps row h = (row, notified_trust k serial s b h)
