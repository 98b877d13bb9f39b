-- ===== src/Ingestion/Sse/Manager.antt =====
-- src/core/ingestion/sse_manager.ts: `SseManager`, its clients and its broadcast.
pub mod Clients
use iot_billing_backend.Common.{
  ℕ, ◌+◌, ◌≤◌, ◌<◌, ◌≡◌, refl, String, Bool, true, false, not, Option, none, some, List, [], ◌∷◌,
  ◌++◌, map, ◌==◌, if◌then◌else◌, arith, Bool-cases, inl, inr, All,
}
use iot_billing_backend.Ingestion.Sse.{
  SseConnection, Event, enqueued, drained, stream_closed, stream_failed, heartbeat_due,
  new_connection, close, enqueue, handle, max_queue_depth,
}
use iot_billing_backend.Ingestion.Sse.Invariant.{IsSound, After, handle-After}

-- `SseManager`. The id `sse-n` of a client is its number `n`, and an event comes as the text
-- `event: …\ndata: …\n\n` that the code makes of its name and payload.
pub record SseManager : Type 0 where
  pub connections : List (ℕ × SseConnection)
  pub counter : ℕ

abbrev pub new_manager : SseManager
new_manager = record { connections = []; counter = 0 }

unfoldable pub connection : ℕ → List (ℕ × SseConnection) → Option SseConnection
connection id [] = none
connection id ((k, c) ∷ cs) = if k == id then some c else connection id cs

-- What a call on the connection of a client leaves in the map.
unfoldable pub update :
    (SseConnection → SseConnection) → ℕ → List (ℕ × SseConnection) → List (ℕ × SseConnection)
update f id [] = []
update f id ((k, c) ∷ cs) = (k, if k == id then f c else c) ∷ update f id cs

unfoldable pub delete : ℕ → List (ℕ × SseConnection) → List (ℕ × SseConnection)
delete id [] = []
delete id ((k, c) ∷ cs) = if k == id then delete id cs else (k, c) ∷ delete id cs

unfoldable pub add_client : SseManager → SseManager × ℕ
add_client m = (
  record {
    connections = m.connections ++ ((m.counter + 1, new_connection) ∷ []);
    counter = m.counter + 1;
  },
  m.counter + 1,
)

-- `removeClient`, with the connection that it closes.
unfoldable pub remove_client : SseManager → ℕ → SseManager × Option SseConnection
remove_client m id = elim (connection id m.connections) [
  | none ↦ (m, none)
  | some c ↦ (record m { connections = delete id m.connections }, some (close c))
]

-- `shutdown`, with the connections that it closes.
unfoldable pub shutdown : SseManager → SseManager × List SseConnection
shutdown m = (record m { connections = [] }, map (λ kc. close kc.1) m.connections)

-- What the manager's callers do, and what the stream of a client does.
pub data Call : Type 0 where
  adding : Call
  sending : ℕ → String → Call
  removing : ℕ → Call
  broadcasting : String → Call
  streaming : ℕ → Event → Call
  shutting_down : Call

-- `wrote k n` is what `write` returns to the client `k` after `n` calls.
module _ (wrote : ℕ → ℕ → Bool) where
  unfoldable pub send_to_client : SseManager → ℕ → String → SseManager × Bool
  send_to_client m id formatted = elim (connection id m.connections) [
    | none ↦ (m, false)
    | some c ↦ (
      record m { connections = update (λ d. (enqueue (wrote id) d formatted).0) id m.connections },
      (enqueue (wrote id) c formatted).1,
    )
  ]

  -- The loop of `broadcast`.
  unfoldable pub enqueue_all : String → List (ℕ × SseConnection) → List (ℕ × SseConnection) × ℕ
  enqueue_all formatted [] = ([], 0)
  enqueue_all formatted ((k, c) ∷ cs) =
      let (c', received) = enqueue (wrote k) c formatted in
      let (cs', delivered) = enqueue_all formatted cs in
      ((k, c') ∷ cs', if received then delivered + 1 else delivered)

  unfoldable pub broadcast : SseManager → String → SseManager × ℕ
  broadcast m formatted =
      let (cs, delivered) = enqueue_all formatted m.connections in
      (record m { connections = cs }, delivered)

  -- The listeners of a connection, and the manager's own on `close`.
  unfoldable pub stream_event : SseManager → ℕ → Event → SseManager
  stream_event m id stream_closed = (remove_client m id).0
  stream_event m id (enqueued e) = m
  stream_event m id drained = record m {
    connections = update (λ c. handle (wrote id) c drained) id m.connections;
  }
  stream_event m id stream_failed = record m {
    connections = update (λ c. handle (wrote id) c stream_failed) id m.connections;
  }
  stream_event m id heartbeat_due = record m {
    connections = update (λ c. handle (wrote id) c heartbeat_due) id m.connections;
  }

  unfoldable pub call : SseManager → Call → SseManager
  call m adding = (add_client m).0
  call m (sending id formatted) = (send_to_client m id formatted).0
  call m (removing id) = (remove_client m id).0
  call m (broadcasting formatted) = (broadcast m formatted).0
  call m (streaming id e) = stream_event m id e
  call m shutting_down = (shutdown m).0

  unfoldable pub call_all : SseManager → List Call → SseManager
  call_all m [] = m
  call_all m (c ∷ cs) = call_all (call m c) cs
