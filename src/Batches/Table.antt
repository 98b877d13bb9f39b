-- ===== src/Batches/Table.antt =====
-- src/ingestion/batchManager.ts: the table of batches and the advisory locks.
pub mod Laws
use iot_billing_backend.Common.{
  ℕ, String, Bool, true, false, not, ◌||◌, ◌&&◌, Option, none, some, List, [], ◌∷◌, ◌==◌, ltb,
  if◌then◌else◌, str_eq,
}
use iot_billing_backend.Common.Result.{Result, ok, throws}
use iot_billing_backend.Batches.Types.{
  BatchState, opened, compacting, closed, Batch, Db, Error, invalid_transition, duplicate_id,
}
use iot_billing_backend.Batches.LockId.{batch_lock_id}

abbrev pub state_eq : BatchState → BatchState → Bool
state_eq opened opened = true
state_eq compacting compacting = true
state_eq closed closed = true
state_eq _ _ = false

-- VALID_TRANSITIONS
abbrev pub valid_transitions : BatchState → List BatchState
valid_transitions opened = compacting ∷ []
valid_transitions compacting = closed ∷ []
valid_transitions closed = []

abbrev includes : List BatchState → BatchState → Bool
includes [] s = false
includes (x ∷ xs) s = state_eq x s || includes xs s

-- `SELECT ... WHERE id = $1`, the first row.
unfoldable pub find_batch : String → List Batch → Option Batch
find_batch id [] = none
find_batch id (b ∷ bs) = if str_eq b.id id then some b else find_batch id bs

unfoldable pub get_batch : Db → String → Option Batch
unfolding find_batch
get_batch db id = find_batch id db.batches

-- INSERT; `id` is the primary key.
unfoldable pub create_batch : Db → Batch → Result Error (Unit {0}) × Db
create_batch db b = elim (find_batch b.id db.batches) [
  | none ↦ (ok tt, record db { batches = b ∷ db.batches })
  | some other ↦ (throws duplicate_id, db)
]

-- The later of two candidates for `ORDER BY batch_start DESC LIMIT 1`.
abbrev pub latest : Batch → Option Batch → Batch
latest b none = b
latest b (some c) = if ltb b.batch_start c.batch_start then c else b

unfoldable pub open_batch_of : String → List Batch → Option Batch
open_batch_of device [] = none
open_batch_of device (b ∷ bs) =
    let others = open_batch_of device bs in
    if str_eq b.device_id device && state_eq b.state opened then some (latest b others) else others

unfoldable pub get_open_batch : Db → String → Option Batch
unfolding open_batch_of
get_open_batch db device = open_batch_of device db.batches

-- `UPDATE ... SET state = $1 WHERE id = $2 AND state = $3`
unfoldable pub update_state : String → BatchState → BatchState → List Batch → List Batch
update_state id from to [] = []
update_state id from to (b ∷ bs) =
    (if str_eq b.id id && state_eq b.state from then record b { state = to } else b)
    ∷ update_state id from to bs

-- Whether that statement meets a row.
unfoldable pub meets : String → BatchState → List Batch → Bool
meets id from [] = false
meets id from (b ∷ bs) = (str_eq b.id id && state_eq b.state from) || meets id from bs

unfoldable pub transition_batch_state :
    Db → String → BatchState → BatchState → Result Error Bool × Db
unfolding update_state meets
transition_batch_state db id from to =
    if not (includes (valid_transitions from) to)
    then (throws (invalid_transition from to), db)
    else (ok (meets id from db.batches), record db { batches = update_state id from to db.batches })

-- Whether a session other than `session` holds a key.
unfoldable pub held_by_other : ℕ → ℕ → List (ℕ × ℕ) → Bool
held_by_other session key [] = false
held_by_other session key ((s, k) ∷ ls) =
    (k == key && not (s == session)) || held_by_other session key ls

-- `pg_try_advisory_lock`: it fails only if another session holds the key.
unfoldable pub try_acquire_batch_lock : ℕ → Db → String → Db × Bool
try_acquire_batch_lock session db id =
    if held_by_other session (batch_lock_id id) db.locks
    then (db, false)
    else (record db { locks = (session, batch_lock_id id) ∷ db.locks }, true)

-- `pg_advisory_unlock`: one hold of the session is given back.
unfoldable pub unlock : ℕ → ℕ → List (ℕ × ℕ) → List (ℕ × ℕ)
unlock session key [] = []
unlock session key ((s, k) ∷ ls) =
    if s == session && k == key then ls else (s, k) ∷ unlock session key ls

unfoldable pub release_batch_lock : ℕ → Db → String → Db
release_batch_lock session db id = record db { locks = unlock session (batch_lock_id id) db.locks }
