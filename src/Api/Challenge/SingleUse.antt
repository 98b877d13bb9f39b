-- ===== src/Api/Challenge/SingleUse.antt =====
-- src/api/auth/session.ts: a challenge is accepted at most once.
use iot_billing_backend.Common.{
  ℕ, ◌+◌, ◌≤◌, ◌≡◌, String, Bool, Option, none, some, List, [], ◌∷◌, ◌↔◌, ◌≢◌, if◌then◌else◌,
  str_eq, eq_iff, arith, Option-cases, inl, inr,
}
use iot_billing_backend.Common.Dict.{Dict, get, get-put, get-delete}
use iot_billing_backend.Api.Challenge.{
  Pending, read, create, consume, check_signature, verify_challenge, Attempt, challenging,
  verifying, Log, count_grant, attempt, attempt_all,
}

-- One if the wallet has a challenge that was not consumed, live or not.
unfoldable pub pending : Option Pending → ℕ
pending none = 0
pending (some c) = 1

module _ (is_valid_stellar_address : String → Bool)
    (verifies : String → String → String → Bool) where
  create_counts :
      (ttl now : ℕ) (nonce : String) (db : Dict Pending) (wallet me : String)
      → let (db', challenge) = create ttl now nonce db wallet in
        pending (get me db') ≤ pending (get me db) + count_grant (str_eq wallet me) challenge
  unfolding create count_grant pending
  create_counts ttl now nonce db wallet me = elim (Option-cases (read now (get wallet db))) [
    | inr (c, live) ↦ rw (live, create) (omega arith)
    | inl free ↦
        rw (free, create, get-put wallet me (record { nonce = nonce; expires_at = now + ttl }) db)
          (ground arith)
  ]

  verify_counts :
      (now : ℕ) (db : Dict Pending) (wallet signature me : String)
      → let (db', valid) =
          verify_challenge is_valid_stellar_address verifies now db wallet signature in
        pending (get me db') + (if valid then (if str_eq wallet me then 1 else 0) else 0)
        ≤ pending (get me db)
  unfolding verify_challenge consume check_signature read pending
  verify_counts now db wallet signature me =
      ground (arith, get-delete wallet me db, eq_iff wallet me)

  -- What is accepted and what can still be accepted was granted, or was there at the start.
  attempt_counts :
      (ttl : ℕ) (me : String) (s : Log) (a : Attempt)
      → let s' = attempt is_valid_stellar_address verifies ttl me s a in
        s'.accepted + pending (get me s'.db) + s.granted
        ≤ s.accepted + pending (get me s.db) + s'.granted
  unfolding attempt
  attempt_counts ttl me s (challenging now nonce wallet) =
      omega (arith, create_counts ttl now nonce s.db wallet me)
  attempt_counts ttl me s (verifying now wallet signature) =
      ground (arith, verify_counts now s.db wallet signature me)

  attempt_all_counts :
      (ttl : ℕ) (me : String) (rest : List Attempt) (s : Log)
      → let s' = attempt_all is_valid_stellar_address verifies ttl me s rest in
        s'.accepted + pending (get me s'.db) + s.granted
        ≤ s.accepted + pending (get me s.db) + s'.granted
  unfolding attempt_all
  attempt_all_counts ttl me [] s = omega arith
  attempt_all_counts ttl me (a ∷ rest) s =
      let s' = attempt is_valid_stellar_address verifies ttl me s a in
      omega (arith, attempt_counts ttl me s a, attempt_all_counts ttl me rest s')

  -- Whatever the order of requests for challenges and of login attempts, and whoever makes them,
  -- a wallet's attempts succeed at most as often as challenges were granted to it: a signature
  -- that was accepted once is not accepted again without a new challenge.
  pub attempt_all_single_use :
      (ttl : ℕ) (me : String) (rest : List Attempt)
      → let s =
          attempt_all is_valid_stellar_address verifies ttl me
            (record { db = []; granted = 0; accepted = 0 })
            rest in
        s.accepted ≤ s.granted
  unfolding pending get
  attempt_all_single_use ttl me rest =
      omega (arith, attempt_all_counts ttl me rest (record { db = []; granted = 0; accepted = 0 }))

  -- A challenge is pending for its lifetime and no second one is granted meanwhile: `create`
  -- returns none exactly while `consume` would return a nonce.
  pub create_iff_consumable :
      (ttl now : ℕ) (nonce : String) (db : Dict Pending) (wallet : String)
      → ((create ttl now nonce db wallet).1 ≡ none) ↔ ((consume now db wallet).1 ≢ none)
  unfolding create consume
  create_iff_consumable ttl now nonce db wallet = ground arith
