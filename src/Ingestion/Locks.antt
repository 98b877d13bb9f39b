-- ===== src/Ingestion/Locks.antt =====
-- src/core/ingestion/lock_manager.ts: `AdvisoryLockManager` over the advisory locks of Postgres. The
-- hash of a lock's name is that of Events/LockId; here a lock is its number.
pub mod Leases
pub mod Ownership
mod Tests
use iot_billing_backend.Common.{
  ltb, ℕ, ◌+◌, ◌-◌, Bool, true, false, not, ◌&&◌, ◌||◌, Option, none, some, List, [], ◌∷◌, ◌==◌,
  if◌then◌else◌,
}

-- Who holds a lock in Postgres: a client of this manager's pool, or another process.
pub data Owner : Type 0 where
  mine : ℕ → Owner
  other : Owner

-- A client that took a lock: Postgres has granted it; `acquireLock` has put it into `heldLocks`; or
-- `releaseLockById` or `autoRelease` has removed it there and waits for its `pg_advisory_unlock`.
pub data LeaseState : Type 0 where
  granted : LeaseState
  held : LeaseState
  let_go : LeaseState

pub record Lease : Type 0 where
  pub lock_id : ℕ
  pub client : ℕ
  pub state : LeaseState

-- The manager with the database's locks. `trying` has the calls of `acquireLock` whose client is
-- connected and whose query has no answer yet; `returning` counts the clients whose query is
-- answered and that `release` gives back next; `checked_out` counts the clients that the pool
-- misses. Queries do not reject.
pub record LockManager : Type 0 where
  pub leases : List Lease
  pub trying : List (ℕ × ℕ)
  pub returning : ℕ
  pub pg_locks : List (ℕ × Owner)
  pub next_client : ℕ
  pub checked_out : ℕ

unfoldable pub owner : ℕ → List (ℕ × Owner) → Option Owner
owner id [] = none
owner id ((k, o) ∷ locks) = if k == id then some o else owner id locks

unfoldable pub unlock : ℕ → List (ℕ × Owner) → List (ℕ × Owner)
unlock id [] = []
unlock id ((k, o) ∷ locks) = let rest = unlock id locks in if k == id then rest else (k, o) ∷ rest

-- `acquireLock`: `pool.connect()` gives a client.
unfoldable pub connected : LockManager → ℕ → LockManager
connected m id = record m {
  trying = (id, m.next_client) ∷ m.trying;
  next_client = m.next_client + 1;
  checked_out = m.checked_out + 1;
}

unfoldable pub find_attempt : ℕ → List (ℕ × ℕ) → Option ℕ
find_attempt id [] = none
find_attempt id ((k, c) ∷ ts) = if k == id then some c else find_attempt id ts

unfoldable pub drop_attempt : ℕ → List (ℕ × ℕ) → List (ℕ × ℕ)
drop_attempt id [] = []
drop_attempt id ((k, c) ∷ ts) =
    let rest = drop_attempt id ts in if k == id then ts else (k, c) ∷ rest

-- `pg_try_advisory_lock` of an attempt: a free lock is granted, and otherwise the client goes back.
unfoldable pub answered : LockManager → ℕ → ℕ → Option Owner → LockManager
answered m id client none = record m {
  leases = (record { lock_id = id; client = client; state = granted }) ∷ m.leases;
  trying = drop_attempt id m.trying;
  pg_locks = (id, mine client) ∷ m.pg_locks;
}
answered m id client (some o) = record m {
  trying = drop_attempt id m.trying;
  returning = m.returning + 1;
}

unfoldable pub tried : LockManager → ℕ → Option ℕ → LockManager
tried m id none = m
tried m id (some client) = answered m id client (owner id m.pg_locks)

abbrev pub state_eq : LeaseState → LeaseState → Bool
state_eq granted granted = true
state_eq held held = true
state_eq let_go let_go = true
state_eq _ _ = false

-- The leases of a lock that are in one state come into another: `heldLocks.set` for those that are
-- granted, `heldLocks.delete` for those that are held.
unfoldable pub mark : ℕ → LeaseState → LeaseState → List Lease → List Lease
mark id before after [] = []
mark id before after (l ∷ ls) =
    (if (l.lock_id == id) && state_eq l.state before then record l { state = after } else l)
    ∷ mark id before after ls

unfoldable pub is_lock_held : ℕ → List Lease → Bool
is_lock_held id [] = false
is_lock_held id (l ∷ ls) = ((l.lock_id == id) && state_eq l.state held) || is_lock_held id ls

unfoldable pub is_waiting : ℕ → List Lease → Bool
is_waiting id [] = false
is_waiting id (l ∷ ls) = ((l.lock_id == id) && state_eq l.state let_go) || is_waiting id ls

unfoldable pub drop_lease : ℕ → List Lease → List Lease
drop_lease id [] = []
drop_lease id (l ∷ ls) = let rest = drop_lease id ls in if l.lock_id == id then rest else l ∷ rest

-- `pg_advisory_unlock` of a client that was let go.
unfoldable pub unlocked : LockManager → ℕ → LockManager
unlocked m id =
    if is_waiting id m.leases
    then record m {
      leases = drop_lease id m.leases;
      pg_locks = unlock id m.pg_locks;
      returning = m.returning + 1;
    }
    else m

-- `client.release()` after the query.
unfoldable pub given_back : LockManager → LockManager
given_back m =
    if ltb 0 m.returning
    then record m { returning = m.returning - 1; checked_out = m.checked_out - 1 }
    else m

-- What happens to the locks, by lock: `acquireLock` up to its first `await` has no effect; its
-- client is connected; its query is executed; its answer comes; calls of `releaseLockById`; the
-- timer of `autoRelease`; an unlock is executed; a client is given back; and other processes.
pub data Event : Type 0 where
  connecting : ℕ → Event
  trying_lock : ℕ → Event
  acquiring : ℕ → Event
  releasing : ℕ → Event
  expiring : ℕ → Event
  unlocking : ℕ → Event
  giving_back : Event
  other_locks : ℕ → Event
  other_unlocks : ℕ → Event

unfoldable pub take_other : ℕ → List (ℕ × Owner) → Option Owner → List (ℕ × Owner)
take_other id locks none = (id, other) ∷ locks
take_other id locks (some o) = locks

unfoldable pub give_other : ℕ → List (ℕ × Owner) → Option Owner → List (ℕ × Owner)
give_other id locks none = locks
give_other id locks (some other) = unlock id locks
give_other id locks (some (mine c)) = locks

unfoldable pub handle : LockManager → Event → LockManager
handle m (connecting id) = connected m id
handle m (trying_lock id) = tried m id (find_attempt id m.trying)
handle m (acquiring id) = record m { leases = mark id granted held m.leases }
handle m (releasing id) = record m { leases = mark id held let_go m.leases }
handle m (expiring id) = record m { leases = mark id held let_go m.leases }
handle m (unlocking id) = unlocked m id
handle m giving_back = given_back m
handle m (other_locks id) = record m { pg_locks = take_other id m.pg_locks (owner id m.pg_locks) }
handle m (other_unlocks id) = record m { pg_locks = give_other id m.pg_locks (owner id m.pg_locks) }

unfoldable pub handle_all : LockManager → List Event → LockManager
handle_all m [] = m
handle_all m (e ∷ es) = handle_all (handle m e) es
