-- ===== src/Ingestion/Replay/Window.antt =====
-- How often a nonce is accepted.
use iot_billing_backend.Common.{
  ℕ, ◌+◌, ◌≤◌, ◌<◌, ◌≡◌, String, Bool, true, false, Option, none, some, List, [], ◌∷◌, ◌==◌, ltb,
  if◌then◌else◌, str_eq, eq_iff, arith, refl, sym, Bool-cases, inl, inr,
}
use mathlib.Core.Path.{subst}
use iot_billing_backend.Common.Dict.{Dict, get, get-put}
use iot_billing_backend.Ingestion.Replay.{
  NonceCache, try_consume, prune, prune_entries, SignedPayload, Validator, ValidationResult, valid,
  validate_signature, answer, claimed, verify_authenticity, nonce_window_ms,
  increment_validation_count, distance,
}

-- A call of `tryConsume`, or the interval's callback, at a time.
pub data Event : Type 0 where
  consumes : String → ℕ → Event
  prunes : ℕ → Event

abbrev pub time_of : Event → ℕ
time_of (consumes nonce now) = now
time_of (prunes now) = now

abbrev one_if : Bool → Bool → ℕ
one_if true true = 1
one_if _ _ = 0

-- How often the nonce is accepted in a run.
unfoldable pub accepted : String → List Event → NonceCache → ℕ
accepted nonce [] c = 0
accepted nonce (consumes n now ∷ es) c =
    let (took, c') = try_consume n now c in one_if took (str_eq n nonce) + accepted nonce es c'
accepted nonce (prunes now ∷ es) c = accepted nonce es (prune now c)

-- All times are before a given one.
unfoldable pub all_before : ℕ → List Event → Bool
all_before limit [] = true
all_before limit (e ∷ es) =
    let rest = all_before limit es in if ltb (time_of e) limit then rest else false

get-prune_entries :
    (k : String) (now expires : ℕ) (d : Dict ℕ)
    → get k d ≡ some expires
    → now < expires
    → get k (prune_entries now d) ≡ some expires
unfolding get prune_entries
get-prune_entries k now expires [] e h = cc
get-prune_entries k now expires ((j, x) ∷ d) e h =
    ground (arith, e, get-prune_entries k now expires d, h)

-- A live entry refuses its nonce, and a call for another one leaves it as it is.
module _ (nonce n : String) (expires now : ℕ) (c : NonceCache)
    (is_there : get nonce c.seen ≡ some expires) (live : now < expires) where
  refused_while_live : one_if (try_consume n now c).0 (str_eq n nonce) ≡ 0
  unfolding try_consume
  refused_while_live = elim (Bool-cases (str_eq n nonce)) [
    | inl e ↦
        let same : n ≡ nonce = ground (arith, e, eq_iff n nonce) in
        let found : get n c.seen ≡ some expires = rw (same) is_there in ground (arith, found, live)
    | inr e ↦ ground (arith, e)
  ]

  kept_entry : get nonce (try_consume n now c).1.seen ≡ some expires
  unfolding try_consume
  kept_entry = elim (Bool-cases (str_eq n nonce)) [
    | inl e ↦
        let same : n ≡ nonce = ground (arith, e, eq_iff n nonce) in
        let found : get n c.seen ≡ some expires = rw (same) is_there in
        ground (arith, found, live, is_there)
    | inr e ↦ ground (arith, e, is_there, get-put n nonce (now + c.window_ms) c.seen)
  ]

-- While the entry of a nonce lives, it is not accepted.
accepted_none :
    (nonce : String) (expires : ℕ) (es : List Event) (c : NonceCache)
    → get nonce c.seen ≡ some expires
    → all_before expires es ≡ true
    → accepted nonce es c ≡ 0
unfolding accepted all_before try_consume prune
accepted_none nonce expires [] c e h = refl
accepted_none nonce expires (prunes now ∷ es) c e h =
    accepted_none nonce expires es (prune now c)
      (get-prune_entries nonce now expires c.seen e (ground (arith, h))) (ground (arith, h))
accepted_none nonce expires (consumes n now ∷ es) c e h =
    let c' = (try_consume n now c).1 in
    let kept : get nonce c'.seen ≡ some expires =
      kept_entry nonce n expires now c e (ground (arith, h)) in
    let later = accepted_none nonce expires es c' kept (ground (arith, h)) in
    let refused = refused_while_live nonce n expires now c e (ground (arith, h)) in
    ground (arith, later, refused)

-- A call that accepts a nonce is the only one that does until the window has passed: whatever
-- calls for whatever nonces and prunings come before then, none accepts it again.
pub try_consume_once :
    (nonce : String) (now : ℕ) (es : List Event) (c : NonceCache)
    → (try_consume nonce now c).0 ≡ true
    → all_before (now + c.window_ms) es ≡ true
    → accepted nonce es (try_consume nonce now c).1 ≡ 0
unfolding try_consume
try_consume_once nonce now es c took h =
    accepted_none nonce (now + c.window_ms) es (try_consume nonce now c).1
      (ground (arith, took, get-put nonce nonce (now + c.window_ms) c.seen, eq_iff nonce nonce)) h

authentic :
    (verified : SignedPayload → Bool) (p : SignedPayload) (now : ℕ)
    → verified p ≡ true
    → (p.signature_bytes == 64) ≡ true
    → distance now p.timestamp ≤ nonce_window_ms
    → verify_authenticity verified now p ≡ none
unfolding verify_authenticity
authentic verified p now signed long near = ground (arith, signed, long, near)

-- A nonce that is accepted is accepted again when its window is over.
try_consume_again :
    (nonce : String) (now : ℕ) (c : NonceCache)
    → (try_consume nonce now c).0 ≡ true
    → (try_consume nonce (now + c.window_ms) (try_consume nonce now c).1).0 ≡ true
unfolding try_consume
try_consume_again nonce now c took =
    ground (arith, took, get-put nonce nonce (now + c.window_ms) c.seen, eq_iff nonce nonce)

claimed_valid :
    (r : Bool × NonceCache) (v : Validator)
    → (claimed r v).0 ≡ valid
    → (r.0 ≡ true) × ((claimed r v).1.cache ≡ r.1)
unfolding increment_validation_count
claimed_valid (true, c) v e = (refl, ground arith)
claimed_valid (false, c) v e = cc

claimed-true : (r : Bool × NonceCache) (v : Validator) → r.0 ≡ true → (claimed r v).0 ≡ valid
claimed-true (true, c) v e = refl
claimed-true (false, c) v e = cc

answer_again :
    (p : SignedPayload) (now : ℕ) (v : Validator)
    → v.cache.window_ms ≡ nonce_window_ms
    → (answer none now p v).0 ≡ valid
    → (answer none (now + nonce_window_ms) p (answer none now p v).1).0 ≡ valid
unfolding answer
answer_again p now v window first =
    let (took, kept) = claimed_valid (try_consume p.nonce now v.cache) v first in
    claimed-true _ _ (
      subst (λ c. (try_consume p.nonce (now + nonce_window_ms) c).0 ≡ true) (sym kept)
        (subst (λ w. (try_consume p.nonce (now + w) (try_consume p.nonce now v.cache).1).0 ≡ true)
          window (try_consume_again p.nonce now v.cache took)))

-- A payload that is signed well, stamped with the current time or up to five seconds ahead, and
-- accepted with the default window, is accepted a second time five seconds later: its nonce has
-- expired by then, but its timestamp has not.
pub validate_signature_replays :
    (verified : SignedPayload → Bool) (p : SignedPayload) (now : ℕ) (v : Validator)
    → verified p ≡ true
    → (p.signature_bytes == 64) ≡ true
    → v.cache.window_ms ≡ nonce_window_ms
    → now ≤ p.timestamp
    → p.timestamp ≤ now + nonce_window_ms
    → (validate_signature verified now p v).0 ≡ valid
    → (validate_signature verified
        (now + nonce_window_ms)
        p
        (validate_signature verified now p v).1).0
      ≡ valid
unfolding validate_signature
validate_signature_replays verified p now v signed long window early late first =
    let now_fine = authentic verified p now signed long (omega arith) in
    let later_fine = authentic verified p (now + nonce_window_ms) signed long (omega arith) in
    subst
      (λ (o : Option ValidationResult × Option ValidationResult).
        (answer o.1 (now + nonce_window_ms) p (answer o.0 now p v).1).0 ≡ valid)
      (λ i. (sym now_fine i, sym later_fine i))
      (answer_again p now v window (subst (λ o. (answer o now p v).0 ≡ valid) now_fine first))
