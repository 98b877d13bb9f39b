-- ===== src/Api/Challenge.antt =====
-- src/api/auth/session.ts: login challenges, each good for one attempt. Times are Unix seconds.
pub mod SingleUse
use iot_billing_backend.Common.{
  ℕ, ◌+◌, String, Bool, true, false, not, ◌||◌, Option, none, some, List, [], ◌∷◌, ltb,
  if◌then◌else◌, str_eq,
}
use iot_billing_backend.Common.Dict.{Dict, get, put, delete}

-- A pending nonce under `auth:challenge:…`, and the time at which Redis forgets it.
pub record Pending : Type 0 where
  pub nonce : String
  pub expires_at : ℕ

unfoldable pub read : ℕ → Option Pending → Option String
read now none = none
read now (some c) = if ltb now c.expires_at then some c.nonce else none

-- `ChallengeStore.create`, with `SET … EX ttl NX`; the nonce is what `generateNonce` gives.
unfoldable pub create : ℕ → ℕ → String → Dict Pending → String → Dict Pending × Option Pending
create ttl now nonce db wallet = elim (read now (get wallet db)) [
  | some pending ↦ (db, none)
  | none ↦
      let challenge : Pending = record { nonce = nonce; expires_at = now + ttl } in
      (put wallet challenge db, some challenge)
]

-- `ChallengeStore.consume`: GET and DEL in one transaction.
unfoldable pub consume : ℕ → Dict Pending → String → Dict Pending × Option String
consume now db wallet = (delete wallet db, read now (get wallet db))

pub data Attempt : Type 0 where
  challenging : ℕ → String → String → Attempt
  verifying : ℕ → String → String → Attempt

-- The pending challenges after a sequence of requests, with the challenges granted to a wallet
-- and its verifications that succeeded.
pub record Log : Type 0 where
  pub db : Dict Pending
  pub granted : ℕ
  pub accepted : ℕ

unfoldable pub count_grant : Bool → Option Pending → ℕ
count_grant mine none = 0
count_grant mine (some c) = if mine then 1 else 0

-- `is_valid_stellar_address` decodes the address as the Stellar library does, and `verifies` is
-- `verifyEd25519Signature` with the key of the address.
module _ (is_valid_stellar_address : String → Bool)
    (verifies : String → String → String → Bool) where
  unfoldable pub check_signature : String → String → Option String → Bool
  check_signature wallet signature none = false
  check_signature wallet signature (some nonce) = verifies nonce signature wallet

  -- `verifyChallenge`
  unfoldable pub verify_challenge : ℕ → Dict Pending → String → String → Dict Pending × Bool
  verify_challenge now db wallet signature =
      if not (is_valid_stellar_address wallet)
      then (db, false)
      else (let (db', nonce) = consume now db wallet in
          (db', check_signature wallet signature nonce))

  unfoldable pub attempt : ℕ → String → Log → Attempt → Log
  attempt ttl me s (challenging now nonce wallet) =
      let (db', challenge) = create ttl now nonce s.db wallet in
      record s { db = db'; granted = s.granted + count_grant (str_eq wallet me) challenge }
  attempt ttl me s (verifying now wallet signature) =
      let (db', valid) = verify_challenge now s.db wallet signature in
      record s {
        db = db';
        accepted =
            if valid then (if str_eq wallet me then s.accepted + 1 else s.accepted) else s.accepted;
      }

  unfoldable pub attempt_all : ℕ → String → Log → List Attempt → Log
  attempt_all ttl me s [] = s
  attempt_all ttl me s (a ∷ rest) = attempt_all ttl me (attempt ttl me s a) rest
