-- ===== src/Ingestion/Locks/Tests.antt =====
-- src/core/ingestion/lock_manager.ts: a lock that expires and is taken again.
use iot_billing_backend.Common.{◌+◌, ◌≡◌, refl, List, [], ◌∷◌, length}
use iot_billing_backend.Ingestion.Locks.{
  other, held, LockManager, owner, unlock, connected, find_attempt, drop_attempt, answered, tried,
  mark, is_waiting, drop_lease, unlocked, given_back, Event, connecting, trying_lock, acquiring,
  expiring, unlocking, giving_back, other_locks, handle, handle_all, take_other,
}
use iot_billing_backend.Ingestion.Locks.Leases.{Owned}
use iot_billing_backend.Ingestion.Locks.Ownership.{handle_all-Owned}

abbrev idle : LockManager
idle = record {
  leases = [];
  trying = [];
  returning = 0;
  pg_locks = (9, other) ∷ [];
  next_client = 0;
  checked_out = 0;
}

-- A second call tries while the first one's unlock is under way, and a third after it.
abbrev some_events : List Event
some_events =
    connecting 4
    ∷ trying_lock 4
    ∷ other_locks 4
    ∷ acquiring 4
    ∷ expiring 4
    ∷ connecting 4
    ∷ trying_lock 4
    ∷ unlocking 4
    ∷ giving_back
    ∷ connecting 4
    ∷ trying_lock 4
    ∷ acquiring 4
    ∷ []

run_test :
    ((handle_all idle some_events).leases ≡ (record { lock_id = 4; client = 2; state = held }) ∷ [])
    × ((handle_all idle some_events).checked_out ≡ 2)
unfolding handle_all handle connected tried answered find_attempt drop_attempt mark unlocked
    given_back owner unlock take_other is_waiting drop_lease
run_test = (refl, refl)

handle_all-Owned_example :
    let r = handle_all idle some_events in
    Owned r.pg_locks r.leases × (r.checked_out ≡ length r.leases + length r.trying + r.returning)
unfolding Owned
handle_all-Owned_example = handle_all-Owned some_events idle tt refl
