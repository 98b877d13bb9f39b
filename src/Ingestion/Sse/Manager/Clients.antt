-- ===== src/Ingestion/Sse/Manager/Clients.antt =====
-- src/core/ingestion/sse_manager.ts: the map of clients, and what `broadcast` counts.
use iot_billing_backend.Common.{
  ℕ, ◌+◌, ◌≤◌, ◌<◌, ◌≡◌, refl, String, Bool, true, false, some, List, [], ◌∷◌, ◌++◌, ◌==◌,
  if◌then◌else◌, arith, Bool-cases, Option-cases, inl, inr,
}
use iot_billing_backend.Ingestion.Sse.{
  SseConnection, Event, enqueued, drained, stream_closed, stream_failed, heartbeat_due,
  new_connection, enqueue, handle,
}
use iot_billing_backend.Ingestion.Sse.Invariant.{IsSound, After, handle-After}
use iot_billing_backend.Ingestion.Sse.Manager.{
  SseManager, new_manager, update, delete, connection, add_client, remove_client, shutdown, Call,
  adding, sending, removing, broadcasting, streaming, shutting_down, send_to_client, enqueue_all,
  broadcast, stream_event, call, call_all,
}

-- The ids of the map grow and are above `low` and at most `high`; its connections are sound.
unfoldable pub Connected : ℕ → ℕ → List (ℕ × SseConnection) → Type 0
Connected low high [] = low ≤ high
Connected low high ((k, c) ∷ cs) = (low < k) × IsSound c × Connected k high cs

pub Connected-from :
    (low low' high : ℕ) (cs : List (ℕ × SseConnection))
    → low' ≤ low
    → Connected low high cs
    → Connected low' high cs
unfolding Connected
Connected-from low low' high [] le h = omega (arith, le, h)
Connected-from low low' high ((k, c) ∷ cs) le (lt, sound, rest) =
    (omega (arith, le, lt), sound, rest)

Connected-append :
    (low high : ℕ) (cs : List (ℕ × SseConnection)) (c : SseConnection)
    → IsSound c
    → Connected low high cs
    → Connected low (high + 1) (cs ++ ((high + 1, c) ∷ []))
unfolding Connected
Connected-append low high [] c sound h = (omega (arith, h), sound, omega arith)
Connected-append low high ((k, d) ∷ cs) c sound (lt, sound', rest) =
    (lt, sound', Connected-append k high cs c sound rest)

delete-Connected :
    (low high id : ℕ) (cs : List (ℕ × SseConnection))
    → Connected low high cs
    → Connected low high (delete id cs)
unfolding delete Connected
delete-Connected low high id [] h = h
delete-Connected low high id ((k, c) ∷ cs) (lt, sound, rest) = elim (Bool-cases (k == id)) [
  | inl same ↦ simp same (
      Connected-from k low high (delete id cs) (omega (arith, lt))
        (delete-Connected k high id cs rest))
  | inr other ↦ simp other (lt, sound, delete-Connected k high id cs rest)
]

if-IsSound : (b : Bool) (c d : SseConnection) → IsSound c → IsSound d → IsSound (if b then c else d)
if-IsSound true c d h k = h
if-IsSound false c d h k = k

update-Connected :
    (f : SseConnection → SseConnection)
    → ((c : SseConnection) → IsSound c → IsSound (f c))
    → (low high id : ℕ) (cs : List (ℕ × SseConnection)) → Connected low high cs
    → Connected low high (update f id cs)
unfolding update Connected
update-Connected f keeps low high id [] h = h
update-Connected f keeps low high id ((k, c) ∷ cs) (lt, sound, rest) = (
  lt,
  if-IsSound (k == id) (f c) c (keeps c sound) sound,
  update-Connected f keeps k high id cs rest,
)

module _ (wrote : ℕ → ℕ → Bool) where
  handle-IsSound :
      (k : ℕ) (e : Event) (c : SseConnection) → IsSound c → IsSound (handle (wrote k) c e)
  unfolding After
  handle-IsSound k e c h = (handle-After (wrote k) e c h).0

  enqueue-IsSound :
      (k : ℕ) (e : String) (c : SseConnection) → IsSound c → IsSound (enqueue (wrote k) c e).0
  unfolding handle
  enqueue-IsSound k e c h = handle-IsSound k (enqueued e) c h

  enqueue_all-Connected :
      (formatted : String) (low high : ℕ) (cs : List (ℕ × SseConnection))
      → Connected low high cs
      → Connected low high (enqueue_all wrote formatted cs).0
  unfolding enqueue_all Connected
  enqueue_all-Connected formatted low high [] h = h
  enqueue_all-Connected formatted low high ((k, c) ∷ cs) (lt, sound, rest) =
      (lt, enqueue-IsSound k formatted c sound, enqueue_all-Connected formatted k high cs rest)

  -- What holds of a manager.
  Managed : SseManager → Type 0
  Managed m = Connected 0 m.counter m.connections

  add_client-Managed : (m : SseManager) → Managed m → Managed (add_client m).0
  unfolding add_client Managed IsSound
  add_client-Managed m h =
      Connected-append 0 m.counter m.connections new_connection
        (omega arith, refl, refl, refl, refl) h

  remove_client-Managed : (m : SseManager) (id : ℕ) → Managed m → Managed (remove_client m id).0
  unfolding Managed remove_client
  remove_client-Managed m id h = elim (Option-cases (connection id m.connections)) [
    | inl gone ↦ simp (gone, remove_client) h
    | inr (c, e) ↦ simp (e, remove_client) (delete-Connected 0 m.counter id m.connections h)
  ]

  send_to_client-Managed :
      (m : SseManager) (id : ℕ) (formatted : String)
      → Managed m
      → Managed (send_to_client wrote m id formatted).0
  unfolding Managed send_to_client
  send_to_client-Managed m id formatted h = elim (Option-cases (connection id m.connections)) [
    | inl gone ↦ simp (gone, send_to_client) h
    | inr (c, e) ↦
        simp (e, send_to_client)
          (update-Connected (λ d. (enqueue (wrote id) d formatted).0) (enqueue-IsSound id formatted)
            0 m.counter id m.connections h)
  ]

  stream_event-Managed :
      (m : SseManager) (id : ℕ) (e : Event) → Managed m → Managed (stream_event wrote m id e)
  unfolding stream_event Managed
  stream_event-Managed m id (enqueued e) h = h
  stream_event-Managed m id stream_closed h = remove_client-Managed m id h
  stream_event-Managed m id drained h =
      update-Connected _ (handle-IsSound id drained) 0 m.counter id m.connections h
  stream_event-Managed m id stream_failed h =
      update-Connected _ (handle-IsSound id stream_failed) 0 m.counter id m.connections h
  stream_event-Managed m id heartbeat_due h =
      update-Connected _ (handle-IsSound id heartbeat_due) 0 m.counter id m.connections h

  call-Managed : (c : Call) (m : SseManager) → Managed m → Managed (call wrote m c)
  unfolding call Managed broadcast shutdown Connected
  call-Managed adding m h = add_client-Managed m h
  call-Managed (sending id formatted) m h = send_to_client-Managed m id formatted h
  call-Managed (removing id) m h = remove_client-Managed m id h
  call-Managed (broadcasting formatted) m h =
      enqueue_all-Connected formatted 0 m.counter m.connections h
  call-Managed (streaming id e) m h = stream_event-Managed m id e h
  call-Managed shutting_down m h = omega arith

  call_all-Managed : (cs : List Call) (m : SseManager) → Managed m → Managed (call_all wrote m cs)
  unfolding call_all
  call_all-Managed [] m h = h
  call_all-Managed (c ∷ cs) m h = call_all-Managed cs (call wrote m c) (call-Managed c m h)

  -- After any sequence of calls and stream events on a new manager the ids of the clients in its
  -- map increase and are at most the counter, so that `addClient` never gives an id of the map
  -- again, and every connection in the map keeps the bound of 50 events and its other invariants.
  pub call_all-Connected :
      (cs : List Call)
      → let m = call_all wrote new_manager cs in Connected 0 m.counter m.connections
  unfolding Managed Connected
  call_all-Connected cs = call_all-Managed cs new_manager empty-Managed
    where
      empty-Managed : Managed new_manager
      empty-Managed = omega arith

  -- The clients whose connection is open.
  pub open_count : List (ℕ × SseConnection) → ℕ
  open_count [] = 0
  open_count ((k, c) ∷ cs) = if c.closed then open_count cs else open_count cs + 1

  enqueue_all_counts :
      (formatted : String) (cs : List (ℕ × SseConnection))
      → (enqueue_all wrote formatted cs).1 ≡ open_count cs
  unfolding enqueue_all open_count enqueue
  enqueue_all_counts formatted [] = refl
  enqueue_all_counts formatted ((k, c) ∷ cs) = ground (arith, enqueue_all_counts formatted cs)

  enqueue_all_reaches :
      (formatted : String) (id : ℕ) (cs : List (ℕ × SseConnection)) (c : SseConnection)
      → connection id cs ≡ some c
      → connection id (enqueue_all wrote formatted cs).0 ≡ some (enqueue (wrote id) c formatted).0
  unfolding enqueue_all connection
  enqueue_all_reaches formatted id [] c e = ground (arith, e)
  enqueue_all_reaches formatted id ((k, d) ∷ cs) c e =
      ground (arith, e, enqueue_all_reaches formatted id cs c)

  -- `broadcast` returns the number of clients whose connection is open, and enqueues the event
  -- with every client of the map, each as `enqueue` does alone.
  pub broadcast_reaches :
      (m : SseManager) (formatted : String) (id : ℕ) (c : SseConnection)
      → connection id m.connections ≡ some c
      → let (m', delivered) = broadcast wrote m formatted in
        (delivered ≡ open_count m.connections)
        × (connection id m'.connections ≡ some (enqueue (wrote id) c formatted).0)
  unfolding broadcast
  broadcast_reaches m formatted id c e = (
    enqueue_all_counts formatted m.connections,
    enqueue_all_reaches formatted id m.connections c e,
  )
