-- ===== src/Ingestion/Budget.antt =====
-- src/core/ingestion/state_machine.ts: ConnectionBudgetTracker.
pub mod Total
use iot_billing_backend.Common.{
  ℕ, zero, suc, ◌+◌, ◌*◌, ◌/◌, ◌≤◌, ◌≡◌, String, Bool, true, false, Option, none, some, List, [],
  ◌∷◌, ltb, if◌then◌else◌, arith, sum_by, length, str_eq,
}
use iot_billing_backend.Common.Dict.{Dict, get, put, delete}

-- The connections that were shed are the events `shedConnection`, newest first.
pub record Tracker : Type 0 where
  pub per_connection_budget_bytes : ℕ
  pub buffer_bytes : Dict ℕ
  pub shed : List String

-- The constructor, for a positive number of connections.
abbrev pub new_tracker : ℕ → ℕ → Tracker
new_tracker total_budget max_connections = record {
  per_connection_budget_bytes = total_budget / max_connections;
  buffer_bytes = [];
  shed = [];
}

unfoldable pub update_connection_buffer : String → ℕ → Tracker → Bool × Tracker
unfolding put
update_connection_buffer id bytes t =
    let stored = put id bytes t.buffer_bytes in
    if ltb t.per_connection_budget_bytes bytes
    then (false, record t { buffer_bytes = stored; shed = id ∷ t.shed })
    else (true, record t { buffer_bytes = stored })

unfoldable pub release_connection : String → Tracker → Tracker
unfolding delete
release_connection id t = record t { buffer_bytes = delete id t.buffer_bytes }

unfoldable pub get_total_buffer_bytes : Tracker → ℕ
get_total_buffer_bytes t = sum_by (λ c. c.1) t.buffer_bytes

unfoldable pub get_connection_buffer_bytes : String → Tracker → ℕ
unfolding get
get_connection_buffer_bytes id t = elim (get id t.buffer_bytes) [ none ↦ 0 | some n ↦ n ]

pub data Event : Type 0 where
  update : String → ℕ → Event
  release : String → Event

unfoldable pub handle : Event → Tracker → Tracker
unfolding update_connection_buffer release_connection
handle (update id bytes) t = (update_connection_buffer id bytes t).1
handle (release id) t = release_connection id t

unfoldable pub handle_all : List Event → Tracker → Tracker
unfolding handle
handle_all [] t = t
handle_all (e ∷ es) t = handle_all es (handle e t)
