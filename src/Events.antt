-- ===== src/Events.antt =====
-- src/ingestion/eventStore.ts: the per-tenant event log. The table `billing_events` is a list of
-- rows. `appendEvent` holds the tenant's advisory lock, so what runs between its SELECT and its
-- INSERT is only a writer that bypasses the function: a list of rows for each attempt.
pub mod LockId
pub mod Append
pub mod Read
mod Tests
use iot_billing_backend.Common.{
  ℕ, zero, suc, ◌+◌, ◌-◌, String, Bool, true, false, ◌||◌, ◌&&◌, List, [], ◌∷◌, ◌++◌, ◌==◌, ltb,
  leb, max, if◌then◌else◌, str_eq, take,
}
use iot_billing_backend.Common.Result.{Result, ok, throws}

-- A row, without the columns that the database fills in (`id`, `occurred_at`).
pub record BillingEvent : Type 0 where
  pub tenant_id : String
  pub sequence : ℕ
  pub event_type : String
  pub payload : String

pub record SequenceConflictError : Type 0 where
  pub tenant_id : String
  pub attempts : ℕ

abbrev pub max_retry_attempts : ℕ
max_retry_attempts = 3

-- `SELECT MAX(sequence) ... WHERE tenant_id = $1`, with 0 for no row.
unfoldable pub max_sequence : String → List BillingEvent → ℕ
max_sequence t [] = 0
max_sequence t (e ∷ es) =
    let others = max_sequence t es in if str_eq e.tenant_id t then max e.sequence others else others

-- Whether UNIQUE (tenant_id, sequence) has the key.
unfoldable pub has_sequence : String → ℕ → List BillingEvent → Bool
has_sequence t n [] = false
has_sequence t n (e ∷ es) = (str_eq e.tenant_id t && e.sequence == n) || has_sequence t n es

-- `INSERT ... ON CONFLICT DO NOTHING RETURNING ...`: the table, and whether a row came back.
unfoldable pub insert_event : BillingEvent → List BillingEvent → List BillingEvent × Bool
insert_event e es = if has_sequence e.tenant_id e.sequence es then (es, false) else (e ∷ es, true)

abbrev pub new_event : String → ℕ → String → String → BillingEvent
new_event t n event_type payload = record {
  tenant_id = t;
  sequence = n;
  event_type = event_type;
  payload = payload;
}

-- Rows that other writers insert, under the same constraint.
unfoldable pub insert_all : List BillingEvent → List BillingEvent → List BillingEvent
insert_all [] es = es
insert_all (x ∷ xs) es = insert_all xs (insert_event x es).0

abbrev next : List (List BillingEvent) → List BillingEvent
next [] = []
next (x ∷ xs) = x

abbrev rest : List (List BillingEvent) → List (List BillingEvent)
rest [] = []
rest (x ∷ xs) = xs

-- The `while` loop, with the attempts that are left and what others insert in each of them.
-- Nothing of this call is in the table when it gives up: its inserts changed nothing.
unfoldable pub append_attempts :
    ℕ
    → List (List BillingEvent)
    → String
    → String
    → String
    → List BillingEvent
    → Result SequenceConflictError BillingEvent × List BillingEvent
append_attempts zero others t event_type payload es =
    (throws (record { tenant_id = t; attempts = max_retry_attempts }), es)
append_attempts (suc n) others t event_type payload es =
    let event = new_event t (max_sequence t es + 1) event_type payload in
    let (inserted, done) = insert_event event (insert_all (next others) es) in
    let again = append_attempts n (rest others) t event_type payload inserted in
    if done then (ok event, inserted) else again

unfoldable pub append_event :
    List (List BillingEvent)
    → String
    → String
    → String
    → List BillingEvent
    → Result SequenceConflictError BillingEvent × List BillingEvent
unfolding append_attempts
append_event others t event_type payload es =
    append_attempts max_retry_attempts others t event_type payload es

-- `ORDER BY sequence ASC`
unfoldable pub insert_sorted : BillingEvent → List BillingEvent → List BillingEvent
insert_sorted e [] = e ∷ []
insert_sorted e (x ∷ xs) = if leb e.sequence x.sequence then e ∷ x ∷ xs else x ∷ insert_sorted e xs

-- `WHERE tenant_id = $1 AND sequence > $2 ORDER BY sequence ASC`
unfoldable pub events_after : String → ℕ → List BillingEvent → List BillingEvent
events_after t after [] = []
events_after t after (e ∷ es) =
    let others = events_after t after es in
    if str_eq e.tenant_id t && ltb after e.sequence then insert_sorted e others else others

unfoldable pub read_events : String → ℕ → ℕ → List BillingEvent → List BillingEvent
unfolding events_after insert_sorted
read_events t after limit es = take limit (events_after t after es)
