-- ===== src/Batches/Compactor.antt =====
-- src/ingestion/batchCompactor.ts: `compactBatch`, `rotateBatch` and `ensureOpenBatch`, each run
-- by one database session with nothing in between.
pub mod Compact
pub mod Rotate
pub mod Ensure
use Prim.Native.String.{String, ◌++◌}
use iot_billing_backend.Common.{
  ℕ, zero, suc, ◌+◌, ◌-◌, ◌%◌, ◌/◌, Bool, true, false, not, Option, none, some, List, [], ◌∷◌,
  if◌then◌else◌, ltb,
}
use iot_billing_backend.Common.Result.{Result, ok, throws}
use iot_billing_backend.Batches.Types.{
  BatchState, opened, compacting, closed, Batch, Db, Error, invalid_transition, duplicate_id,
}
use iot_billing_backend.Batches.Table.{
  state_eq, find_batch, get_batch, create_batch, get_open_batch, transition_batch_state,
  try_acquire_batch_lock, release_batch_lock,
}
use iot_billing_backend.Batches.Summary.{do_compact}

abbrev pub batch_window_ms : ℕ
batch_window_ms = 300000

-- `String(n)` of a number, digit by digit.
abbrev digit : ℕ → String
digit zero = "0"
digit (suc zero) = "1"
digit (suc (suc zero)) = "2"
digit (suc (suc (suc zero))) = "3"
digit (suc (suc (suc (suc zero)))) = "4"
digit (suc (suc (suc (suc (suc zero))))) = "5"
digit (suc (suc (suc (suc (suc (suc zero)))))) = "6"
digit (suc (suc (suc (suc (suc (suc (suc zero))))))) = "7"
digit (suc (suc (suc (suc (suc (suc (suc (suc zero)))))))) = "8"
digit _ = "9"

-- Each round takes a digit off, so `n + 1` rounds are enough.
decimal : ℕ → ℕ → String → String
decimal zero n s = s
decimal (suc f) n s =
    let more = decimal f (n / 10) (digit (n % 10) ++ s) in if ltb n 10 then digit n ++ s else more

unfoldable pub number_string : ℕ → String
unfolding decimal
number_string n = decimal (suc n) n ""

unfoldable pub new_batch_id : String → ℕ → String
unfolding number_string
new_batch_id device start_epoch = device ++ ":" ++ number_string start_epoch

-- A call on the database: it returns or throws, and the database comes back either way.
abbrev pub Action : Type 0 → Type 0
Action A = Db → Result Error A × Db

abbrev pub pure : {A : Type 0} → A → Action A
pure a db = (ok a, db)

infixl 5 ◌>>=◌ ◌>>◌
abbrev pub ◌>>=◌ : {A B : Type 0} → Action A → (A → Action B) → Action B
◌>>=◌ m f db = let (r, db') = m db in elim r [ ok a ↦ f a db' | throws e ↦ (throws e, db') ]

abbrev pub ◌>>◌ : {A B : Type 0} → Action A → Action B → Action B
m >> k = m >>= λ _. k

-- `try { m } finally { after }`, where `after` does not throw.
abbrev pub try_finally : {A : Type 0} → Action A → (Db → Db) → Action A
try_finally m after db = let (r, db') = m db in (r, after db')

abbrev pub run_compaction : Batch → Action (Unit {0})
run_compaction b db = (ok tt, do_compact db b)

abbrev pub transition : String → BatchState → BatchState → Action Bool
transition id from to db = transition_batch_state db id from to

pub data CompactOutcome : Type 0 where
  done skipped : CompactOutcome

-- On an OPEN batch, with the lock held.
compact_open : Batch → String → Action CompactOutcome
compact_open b id = do
  moved ← transition id opened compacting
  if not moved
      then pure skipped
      else (do run_compaction b; transition id compacting closed; pure done)

compact_found : Option Batch → String → Action CompactOutcome
unfolding compact_open
compact_found none id = pure skipped
compact_found (some b) id =
    if not (state_eq b.state opened) then pure skipped else compact_open b id

unfoldable pub compact_batch : ℕ → String → Action CompactOutcome
unfolding compact_found
compact_batch session id db =
    let (db', locked) = try_acquire_batch_lock session db id in
    if not locked
    then (ok skipped, db')
    else try_finally (λ d. compact_found (get_batch d id) id d)
        (λ d. release_batch_lock session d id) db'

-- The successor that `rotateBatch` creates.
abbrev pub successor : String → Batch → Batch
successor device current = record {
  id = new_batch_id device current.batch_end;
  device_id = device;
  batch_start = current.batch_end;
  batch_end = current.batch_end + batch_window_ms;
  state = opened;
}

-- `BEGIN ... COMMIT`: nothing is kept of a transaction that throws or does not move the batch.
rotate_transaction : Batch → Batch → Action Bool
rotate_transaction current next db =
    let (r, db') =
      (do
        moved ← transition current.id opened compacting
        if not moved then pure false else (do (λ d. create_batch d next); pure true))
        db in
    elim r [ ok moved ↦ (ok moved, if moved then db' else db) | throws e ↦ (throws e, db) ]

rotate_open : String → Batch → Action (Option Batch)
unfolding rotate_transaction
rotate_open device current = do
  moved ← rotate_transaction current (successor device current)
  if not moved then pure none else (do
    run_compaction (record current { state = compacting })
    transition current.id compacting closed
    pure (some (successor device current)))

rotate_fresh : String → Batch → Option Batch → Action (Option Batch)
unfolding rotate_open
rotate_fresh device current none = pure none
rotate_fresh device current (some fresh) =
    if not (state_eq fresh.state opened) then pure none else rotate_open device current

rotate_current : ℕ → String → Option Batch → Action (Option Batch)
unfolding rotate_fresh
rotate_current session device none db = (ok none, db)
rotate_current session device (some current) db =
    let (db', locked) = try_acquire_batch_lock session db current.id in
    if not locked
    then (ok none, db')
    else try_finally (λ d. rotate_fresh device current (get_batch d current.id) d)
        (λ d. release_batch_lock session d current.id) db'

unfoldable pub rotate_batch : ℕ → String → Action (Option Batch)
unfolding rotate_current
rotate_batch session device db = rotate_current session device (get_open_batch db device) db

-- The batch of the five minutes around `now`.
abbrev pub bucket_batch : String → ℕ → Batch
bucket_batch device now =
    let bucket_start = now - now % batch_window_ms in
    record {
      id = new_batch_id device bucket_start;
      device_id = device;
      batch_start = bucket_start;
      batch_end = bucket_start + batch_window_ms;
      state = opened;
    }

-- `INSERT ... ON CONFLICT (id) DO NOTHING`
insert_if_absent : Batch → Db → Db
insert_if_absent b db = elim (find_batch b.id db.batches) [
  | none ↦ record db { batches = b ∷ db.batches }
  | some other ↦ db
]

unfoldable pub ensure_open_batch : String → ℕ → Db → Batch × Db
unfolding insert_if_absent
ensure_open_batch device now db = elim (get_open_batch db device) [
  | some existing ↦ (existing, db)
  | none ↦ (bucket_batch device now, insert_if_absent (bucket_batch device now) db)
]
