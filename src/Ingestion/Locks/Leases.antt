-- ===== src/Ingestion/Locks/Leases.antt =====
-- src/core/ingestion/lock_manager.ts: the lists of leases and of Postgres's locks.
use iot_billing_backend.Common.{
  ◌&&◌, ℕ, suc, ◌+◌, ◌≡◌, refl, ap, ◌∙◌, Bool, true, false, ◌||◌, none, some, List, [], ◌∷◌, length,
  ◌==◌, if◌then◌else◌, arith, Bool-cases, inl, inr,
}
use iot_billing_backend.Ingestion.Locks.{
  LeaseState, mark, state_eq, find_attempt, drop_attempt, Owner, mine, Lease, owner, unlock,
  is_waiting, drop_lease,
}

-- A lease of the lock stands in the list.
unfoldable pub has_lease : ℕ → List Lease → Bool
has_lease id [] = false
has_lease id (l ∷ ls) = l.lock_id == id || has_lease id ls

-- Every lease is the owner of its lock in Postgres, and no lock has two.
unfoldable pub Owned : List (ℕ × Owner) → List Lease → Type 0
Owned locks [] = Unit {0}
Owned locks (l ∷ ls) =
    (owner l.lock_id locks ≡ some (mine l.client))
    × (has_lease l.lock_id ls ≡ false)
    × Owned locks ls

pub owner-unlock :
    (id k : ℕ) (locks : List (ℕ × Owner))
    → owner k (unlock id locks) ≡ (if id == k then none else owner k locks)
unfolding owner unlock
owner-unlock id k [] = ground arith
owner-unlock id k ((j, o) ∷ locks) = ground (arith, owner-unlock id k locks)

-- Another list of locks with the same owners of the leased ones.
pub Owned-kept :
    (locks locks' : List (ℕ × Owner)) (ls : List Lease)
    → ((id : ℕ) → has_lease id ls ≡ true → owner id locks' ≡ owner id locks)
    → Owned locks ls
    → Owned locks' ls
unfolding Owned has_lease
Owned-kept locks locks' [] same h = h
Owned-kept locks locks' (l ∷ ls) same (own, single, rest) = (
  same l.lock_id (ground arith) ∙ own,
  single,
  Owned-kept locks locks' ls (λ id there. same id (ground (arith, there))) rest,
)

-- A lock without an owner has no lease.
pub free_lease :
    (id : ℕ) (locks : List (ℕ × Owner)) (ls : List Lease)
    → Owned locks ls
    → owner id locks ≡ none
    → has_lease id ls ≡ false
unfolding Owned has_lease
free_lease id locks [] h free = refl
free_lease id locks (l ∷ ls) (own, single, rest) free =
    ground (arith, own, free, free_lease id locks ls rest free)

pub has_lease-mark :
    (id k : ℕ) (before after : LeaseState) (ls : List Lease)
    → has_lease k (mark id before after ls) ≡ has_lease k ls
unfolding has_lease mark
has_lease-mark id k before after [] = refl
has_lease-mark id k before after (l ∷ ls) = ground (arith, has_lease-mark id k before after ls)

pub length-mark :
    (id : ℕ) (before after : LeaseState) (ls : List Lease)
    → length (mark id before after ls) ≡ length ls
unfolding mark
length-mark id before after [] = refl
length-mark id before after (l ∷ ls) = ap suc (length-mark id before after ls)

pub mark-Owned :
    (id : ℕ) (before after : LeaseState) (locks : List (ℕ × Owner)) (ls : List Lease)
    → Owned locks ls
    → Owned locks (mark id before after ls)
unfolding mark Owned
mark-Owned id before after locks [] h = h
mark-Owned id before after locks (l ∷ ls) (own, single, rest) =
    let single' = has_lease-mark id l.lock_id before after ls ∙ single in
    let rest' = mark-Owned id before after locks ls rest in
    elim (Bool-cases ((l.lock_id == id) && state_eq l.state before)) [
      | inl same ↦ simp same (own, single', rest')
      | inr different ↦ simp different (own, single', rest')
    ]

pub length-drop_attempt :
    (id c : ℕ) (ts : List (ℕ × ℕ))
    → find_attempt id ts ≡ some c
    → length (drop_attempt id ts) + 1 ≡ length ts
unfolding find_attempt drop_attempt
length-drop_attempt id c [] e = cc
length-drop_attempt id c ((k, d) ∷ ts) e = ground (arith, e, length-drop_attempt id c ts)

pub has_lease-drop_lease :
    (id k : ℕ) (ls : List Lease)
    → has_lease k (drop_lease id ls) ≡ (if id == k then false else has_lease k ls)
unfolding has_lease drop_lease
has_lease-drop_lease id k [] = ground arith
has_lease-drop_lease id k (l ∷ ls) = ground (arith, has_lease-drop_lease id k ls)

pub length-drop_lease :
    (id : ℕ) (locks : List (ℕ × Owner)) (ls : List Lease)
    → Owned locks ls
    → length (drop_lease id ls) + (if has_lease id ls then 1 else 0) ≡ length ls
unfolding drop_lease has_lease Owned
length-drop_lease id locks [] h = refl
length-drop_lease id locks (l ∷ ls) (own, single, rest) =
    ground (arith, single, length-drop_lease id locks ls rest)

pub drop_lease-Owned :
    (id : ℕ) (locks : List (ℕ × Owner)) (ls : List Lease)
    → Owned locks ls
    → Owned locks (drop_lease id ls)
unfolding drop_lease Owned
drop_lease-Owned id locks [] h = h
drop_lease-Owned id locks (l ∷ ls) (own, single, rest) = elim (Bool-cases (l.lock_id == id)) [
  | inl same ↦ rw (same) (drop_lease-Owned id locks ls rest)
  | inr different ↦ rw (different) (
    own,
    ground (arith, single, has_lease-drop_lease id l.lock_id ls),
    drop_lease-Owned id locks ls rest,
  )
]

pub is_waiting-has_lease :
    (id : ℕ) (ls : List Lease) → is_waiting id ls ≡ true → has_lease id ls ≡ true
unfolding is_waiting has_lease
is_waiting-has_lease id [] waits = ground (arith, waits)
is_waiting-has_lease id (l ∷ ls) waits = ground (arith, waits, is_waiting-has_lease id ls)
