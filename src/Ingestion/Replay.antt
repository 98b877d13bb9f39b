-- ===== src/Ingestion/Replay.antt =====
-- src/core/ingestion/validator.ts: InMemoryNonceCache and `validateSignature`. The signature check
-- of tweetnacl and the serialization that it reads are a parameter.
pub mod Window
use iot_billing_backend.Common.{
  ℕ, ◌+◌, ◌-◌, String, Bool, true, false, not, Option, none, some, List, [], ◌∷◌, ltb, leb, ◌==◌,
  if◌then◌else◌,
}
use iot_billing_backend.Common.Dict.{Dict, get, put}

abbrev pub nonce_window_ms : ℕ
nonce_window_ms = 5000

pub record NonceCache : Type 0 where
  pub seen : Dict ℕ
  pub window_ms : ℕ

abbrev pub new_cache : ℕ → NonceCache
new_cache window_ms = record { seen = []; window_ms = window_ms }

abbrev is_live : ℕ → Option ℕ → Bool
is_live now none = false
is_live now (some expires_at) = ltb now expires_at

unfoldable pub try_consume : String → ℕ → NonceCache → Bool × NonceCache
unfolding get put
try_consume nonce now c =
    if is_live now (get nonce c.seen)
    then (false, c)
    else (true, record c { seen = put nonce (now + c.window_ms) c.seen })

-- The interval's callback.
unfoldable pub prune_entries : ℕ → Dict ℕ → Dict ℕ
prune_entries now [] = []
prune_entries now ((k, expires_at) ∷ d) =
    let rest = prune_entries now d in if leb expires_at now then rest else (k, expires_at) ∷ rest

unfoldable pub prune : ℕ → NonceCache → NonceCache
unfolding prune_entries
prune now c = record c { seen = prune_entries now c.seen }

unfoldable pub dispose : NonceCache → NonceCache
dispose c = record c { seen = [] }

-- A payload, with the metrics left to the signature check.
pub record SignedPayload : Type 0 where
  pub device_id : String
  pub timestamp : ℕ
  pub nonce : String
  pub signature_bytes : ℕ

pub data ValidationResult : Type 0 where
  valid invalid_length stale mismatch replayed : ValidationResult

-- `Math.abs(a - b)`
abbrev pub distance : ℕ → ℕ → ℕ
distance a b = (a - b) + (b - a)

unfoldable pub verify_authenticity :
    (SignedPayload → Bool) → ℕ → SignedPayload → Option ValidationResult
verify_authenticity verified now p =
    if not (p.signature_bytes == 64)
    then some invalid_length
    else if ltb nonce_window_ms (distance now p.timestamp)
    then some stale
    else if not (verified p)
    then some mismatch
    else none

-- The cache and `validatedCount`; the last field counts the refreshes that were triggered.
pub record Validator : Type 0 where
  pub cache : NonceCache
  pub validated_count : ℕ
  pub refreshes : ℕ

unfoldable pub increment_validation_count : Validator → Validator
increment_validation_count v =
    if leb 10000 (v.validated_count + 1)
    then record v { validated_count = 0; refreshes = v.refreshes + 1 }
    else record v { validated_count = v.validated_count + 1 }

abbrev pub claimed : Bool × NonceCache → Validator → ValidationResult × Validator
claimed (true, c) v = (valid, increment_validation_count (record v { cache = c }))
claimed (false, c) v = (replayed, record v { cache = c })

-- By the rejection, if there is one.
unfoldable pub answer :
    Option ValidationResult → ℕ → SignedPayload → Validator → ValidationResult × Validator
unfolding try_consume
answer (some rejection) now p v = (rejection, v)
answer none now p v = claimed (try_consume p.nonce now v.cache) v

unfoldable pub validate_signature :
    (SignedPayload → Bool) → ℕ → SignedPayload → Validator → ValidationResult × Validator
unfolding verify_authenticity answer
validate_signature verified now p v = answer (verify_authenticity verified now p) now p v
