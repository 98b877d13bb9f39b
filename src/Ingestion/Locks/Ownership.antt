-- ===== src/Ingestion/Locks/Ownership.antt =====
-- src/core/ingestion/lock_manager.ts: every lock that the manager holds is its own in Postgres, and
-- no client is lost.
use iot_billing_backend.Common.{
  ltb, ◌+◌, length, arith, some, none, Option, Bool-cases, inl, inr, ℕ, ◌≡◌, refl, false, Option,
  none, some, List, [], ◌∷◌, length, arith, Bool-cases, Option-cases, inl, inr,
}
use iot_billing_backend.Ingestion.Locks.{
  Owner, mine, other, Lease, granted, held, let_go, LockManager, owner, unlock, connected,
  find_attempt, answered, tried, is_waiting, drop_lease, unlocked, given_back, Event, connecting,
  trying_lock, acquiring, releasing, expiring, unlocking, giving_back, other_locks, other_unlocks,
  take_other, give_other, handle, handle_all,
}
use iot_billing_backend.Ingestion.Locks.Leases.{
  Owned, has_lease, owner-unlock, Owned-kept, free_lease, length-mark, mark-Owned,
  length-drop_attempt, has_lease-drop_lease, length-drop_lease, drop_lease-Owned,
  is_waiting-has_lease,
}

-- What holds of the manager: its leases are owned, and every client that the pool misses has one.
unfoldable IsSound : LockManager → Type 0
IsSound m =
    Owned m.pg_locks m.leases × (m.checked_out ≡ length m.leases + length m.trying + m.returning)

answered-IsSound :
    (m : LockManager) (id client : ℕ) (o : Option Owner)
    → owner id m.pg_locks ≡ o
    → find_attempt id m.trying ≡ some client
    → IsSound m
    → IsSound (answered m id client o)
unfolding answered IsSound Owned owner
answered-IsSound m id client none free asked (owned, count) =
    let new_locks = (id, mine client) ∷ m.pg_locks in
    let single = free_lease id m.pg_locks m.leases owned free in
    (
      (
        ground arith,
        single,
        Owned-kept m.pg_locks new_locks m.leases (λ k there. ground (arith, there, single)) owned,
      ),
      omega (arith, count, length-drop_attempt id client m.trying asked),
    )
answered-IsSound m id client (some o) taken asked (owned, count) =
    (owned, omega (arith, count, length-drop_attempt id client m.trying asked))

tried-IsSound :
    (m : LockManager) (id : ℕ) (c : Option ℕ)
    → find_attempt id m.trying ≡ c
    → IsSound m
    → IsSound (tried m id c)
unfolding tried
tried-IsSound m id none asked h = h
tried-IsSound m id (some client) asked h =
    answered-IsSound m id client (owner id m.pg_locks) refl asked h

given_back-IsSound : (m : LockManager) → IsSound m → IsSound (given_back m)
unfolding given_back IsSound
given_back-IsSound m (owned, count) = elim (Bool-cases (ltb 0 m.returning)) [
  | inl some_back ↦ simp some_back (owned, ground (arith, some_back, count))
  | inr none_back ↦ simp none_back (owned, count)
]

unlocked-IsSound : (m : LockManager) (id : ℕ) → IsSound m → IsSound (unlocked m id)
unfolding unlocked IsSound
unlocked-IsSound m id (owned, count) = elim (Bool-cases (is_waiting id m.leases)) [
  | inl waits ↦ simp waits (
    Owned-kept m.pg_locks (unlock id m.pg_locks) (drop_lease id m.leases)
        (λ k there.
          ground (arith, there, has_lease-drop_lease id k m.leases, owner-unlock id k m.pg_locks))
        (drop_lease-Owned id m.pg_locks m.leases owned),
    ground (
      arith,
      count,
      length-drop_lease id m.pg_locks m.leases owned,
      is_waiting-has_lease id m.leases waits,
    ),
  )
  | inr absent ↦ simp absent (owned, count)
]

-- A lock of another process has no lease.
other_lease :
    (id : ℕ) (locks : List (ℕ × Owner)) (ls : List Lease)
    → Owned locks ls
    → owner id locks ≡ some other
    → has_lease id ls ≡ false
unfolding Owned has_lease
other_lease id locks [] h theirs = refl
other_lease id locks (l ∷ ls) (own, single, rest) theirs =
    ground (arith, own, theirs, other_lease id locks ls rest)

take_other-Owned :
    (id : ℕ) (locks : List (ℕ × Owner)) (ls : List Lease)
    → Owned locks ls
    → Owned (take_other id locks (owner id locks)) ls
unfolding take_other owner
take_other-Owned id locks ls h = elim (Option-cases (owner id locks)) [
  | inl free ↦ rw (free) (
      Owned-kept locks ((id, other) ∷ locks) ls
        (λ k there. ground (arith, there, free_lease id locks ls h free)) h)
  | inr (o, taken) ↦ rw (taken) h
]

give_other-Owned :
    (id : ℕ) (locks : List (ℕ × Owner)) (ls : List Lease) (o : Option Owner)
    → owner id locks ≡ o
    → Owned locks ls
    → Owned (give_other id locks o) ls
unfolding give_other
give_other-Owned id locks ls none e h = h
give_other-Owned id locks ls (some other) e h =
    Owned-kept locks (unlock id locks) ls
      (λ k there. ground (arith, there, other_lease id locks ls h e, owner-unlock id k locks)) h
give_other-Owned id locks ls (some (mine c)) e h = h

handle-IsSound : (m : LockManager) (e : Event) → IsSound m → IsSound (handle m e)
unfolding handle IsSound
handle-IsSound m (connecting id) (owned, count) = unfold connected in (owned, omega (arith, count))
handle-IsSound m (trying_lock id) h =
    unfold IsSound in tried-IsSound m id (find_attempt id m.trying) refl h
handle-IsSound m (acquiring id) (owned, count) = (
  mark-Owned id granted held m.pg_locks m.leases owned,
  omega (arith, count, length-mark id granted held m.leases),
)
handle-IsSound m (releasing id) (owned, count) = (
  mark-Owned id held let_go m.pg_locks m.leases owned,
  omega (arith, count, length-mark id held let_go m.leases),
)
handle-IsSound m (expiring id) (owned, count) = (
  mark-Owned id held let_go m.pg_locks m.leases owned,
  omega (arith, count, length-mark id held let_go m.leases),
)
handle-IsSound m giving_back h = unfold IsSound in given_back-IsSound m h
handle-IsSound m (unlocking id) h = unlocked-IsSound m id h
handle-IsSound m (other_locks id) (owned, count) =
    (take_other-Owned id m.pg_locks m.leases owned, count)
handle-IsSound m (other_unlocks id) (owned, count) =
    (give_other-Owned id m.pg_locks m.leases (owner id m.pg_locks) refl owned, count)

-- Mutual exclusion and no lost client: in whatever order clients are connected, locks tried, taken,
-- released, expired and unlocked, clients given back, and other processes lock and unlock, every
-- lock that Postgres has granted to the manager and not yet taken back, held or not, is owned there
-- by the client that took it; no lock has two such clients; and the pool misses exactly these
-- clients, those that still try, and those whose query is answered and that are given back next.
pub handle_all-Owned :
    (es : List Event) (m : LockManager)
    → Owned m.pg_locks m.leases
    → m.checked_out ≡ length m.leases + length m.trying + m.returning
    → let r = handle_all m es in
      Owned r.pg_locks r.leases × (r.checked_out ≡ length r.leases + length r.trying + r.returning)
unfolding handle_all IsSound
handle_all-Owned [] m owned count = (owned, count)
handle_all-Owned (e ∷ es) m owned count =
    let (owned', count') = handle-IsSound m e (owned, count) in
    handle_all-Owned es (handle m e) owned' count'
