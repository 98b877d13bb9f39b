-- ===== src/Ingestion/Sse/Invariant.antt =====
-- src/core/ingestion/sse_manager.ts: the bound, the counts and the flags of a connection after any
-- run of events.
use iot_billing_backend.Common.{
  ℕ, ◌+◌, ◌≤◌, ◌≡◌, refl, String, Bool, true, false, not, ◌||◌, List, [], ◌∷◌, ◌++◌, length, arith,
  Bool-cases, inl, inr, length-append, ◌∙◌, ap, sym, leb, if◌then◌else◌, append_assoc,
}
use native.Mathlib.Nat.{zero-add}
use iot_billing_backend.Ingestion.Sse.{
  SseConnection, Event, enqueued, drained, stream_closed, stream_failed, heartbeat_due,
  new_connection, close, shift, flush_loop, flush_queue, make_room, enqueue, send_keepalive, handle,
  handle_all, max_queue_depth,
}

-- The events that a run asks to send, in their order.
unfoldable pub asked : List Event → List String
asked [] = []
asked (enqueued e ∷ es) = e ∷ asked es
asked (drained ∷ es) = asked es
asked (stream_closed ∷ es) = asked es
asked (stream_failed ∷ es) = asked es
asked (heartbeat_due ∷ es) = asked es

-- What `flush_loop` keeps: the flags, the counts, and the events that are sent or still queued.
unfoldable pub Flushed : SseConnection → List String → SseConnection → Type 0
Flushed c queue r =
    (r.sent ++ r.queue ≡ c.sent ++ queue)
    × (length r.queue ≤ length queue)
    × (length r.sent + length r.queue ≡ length c.sent + length queue)
    × ((r.draining || leb (length r.queue) 0) ≡ true)
    × (r.closed ≡ c.closed)
    × (r.heartbeat ≡ c.heartbeat)
    × (r.ended ≡ c.ended)
    × (r.dropped_count ≡ c.dropped_count)
    × (r.discarded ≡ c.discarded)

-- How many of the events asked for the connection accounts for.
unfoldable pub accounted : SseConnection → ℕ
accounted c = length c.sent + length c.queue + c.dropped_count + c.discarded

-- The queue is within its bound; it holds events only while an open connection waits for its
-- stream to drain; the heartbeat runs exactly while the connection is open; and a closed
-- connection's stream has ended.
unfoldable pub IsSound : SseConnection → Type 0
IsSound c =
    (length c.queue ≤ max_queue_depth)
    × ((c.draining || leb (length c.queue) 0) ≡ true)
    × ((not c.closed || leb (length c.queue) 0) ≡ true)
    × (c.heartbeat ≡ not c.closed)
    × (c.ended ≡ c.closed)

-- The loop writes one more event.
unfoldable pub write_one : SseConnection → String → SseConnection
write_one c e = record c { written = e ∷ c.written; sent = c.sent ++ (e ∷ []) }

write_one-Flushed :
    (e : String) (queue : List String) (c r : SseConnection)
    → Flushed (write_one c e) queue r
    → Flushed c (e ∷ queue) r
unfolding Flushed write_one
write_one-Flushed e queue c r (kept, le, total, idle, f1, f2, f3, f4, f5) = (
  kept ∙ append_assoc c.sent (e ∷ []) queue,
  omega (arith, le),
  omega (arith, total, length-append c.sent (e ∷ [])),
  idle,
  f1,
  f2,
  f3,
  f4,
  f5,
)

module _ (wrote : ℕ → Bool) where
  pub flush_loop-Flushed :
      (queue : List String) (c : SseConnection) → Flushed c queue (flush_loop wrote queue c)
  unfolding flush_loop Flushed write_one
  flush_loop-Flushed [] c = ground arith
  flush_loop-Flushed (e ∷ queue) c = elim (Bool-cases (wrote (length c.written))) [
    | inl more ↦ rw (more) (
        write_one-Flushed e queue c (flush_loop wrote queue (write_one c e))
          (flush_loop-Flushed queue (write_one c e)))
    | inr full ↦ rw (full) (refl, omega arith, refl, refl, refl, refl, refl, refl, refl)
  ]

  pub flush_queue-IsSound :
      (c : SseConnection)
      → length c.queue ≤ max_queue_depth
      → ((not c.closed || leb (length c.queue) 0) ≡ true)
      → (c.heartbeat ≡ not c.closed)
      → (c.ended ≡ c.closed)
      → IsSound (flush_queue wrote c) × (accounted (flush_queue wrote c) ≡ accounted c)
  unfolding flush_queue IsSound accounted Flushed
  flush_queue-IsSound c bound shut beat done =
      let (kept, le, total, idle, f1, f2, f3, f4, f5) = flush_loop-Flushed c.queue c in
      ground (arith, bound, shut, beat, done, le, total, idle, f1, f2, f3, f4, f5)

  -- `enqueue` of an open connection, up to its call of `flushQueue`.
  unfoldable pub queued : SseConnection → String → SseConnection
  queued c e = record (make_room wrote c) { queue = (make_room wrote c).queue ++ (e ∷ []) }

  queued-bound :
      (c : SseConnection) (e : String)
      → length c.queue ≤ max_queue_depth
      → (length (queued c e).queue ≤ max_queue_depth)
        × (accounted (queued c e) ≡ accounted c + 1)
        × ((queued c e).closed ≡ c.closed)
        × ((queued c e).heartbeat ≡ c.heartbeat)
        × ((queued c e).ended ≡ c.ended)
  unfolding queued make_room shift accounted
  queued-bound c e bound =
      ground (arith, bound, length-append c.queue (e ∷ []), length-append (shift c.queue) (e ∷ []))

  enqueue-IsSound :
      (c : SseConnection) (e : String)
      → IsSound c
      → IsSound (enqueue wrote c e).0 × (accounted (enqueue wrote c e).0 ≡ accounted c + 1)
  unfolding enqueue queued IsSound accounted
  enqueue-IsSound c e (bound, idle, shut, beat, done) = elim (Bool-cases c.closed) [
    | inl off ↦ ground (arith, off, bound, idle, shut, beat, done)
    | inr on ↦
        let (fits, more, f1, f2, f3) = queued-bound c e bound in
        let (sound, same) =
          flush_queue-IsSound (queued c e) fits (ground (arith, f1, on))
            (f2 ∙ beat ∙ ap not (sym f1)) (f3 ∙ done ∙ sym f1) in
        simp on (sound, same ∙ more)
  ]

  close-IsSound :
      (c : SseConnection) → IsSound c → IsSound (close c) × (accounted (close c) ≡ accounted c + 0)
  unfolding close IsSound accounted
  close-IsSound c (bound, idle, shut, beat, done) = ground (arith, bound, idle, shut, beat, done)

  send_keepalive-IsSound :
      (c : SseConnection)
      → IsSound c
      → IsSound (send_keepalive wrote c) × (accounted (send_keepalive wrote c) ≡ accounted c + 0)
  unfolding send_keepalive IsSound accounted
  send_keepalive-IsSound c (bound, idle, shut, beat, done) =
      ground (arith, bound, idle, shut, beat, done)

  -- `d` is sound and accounts for `n` more events than `c`.
  unfoldable pub After : SseConnection → ℕ → SseConnection → Type 0
  After c n d = IsSound d × (accounted d ≡ accounted c + n)

  if-After :
      (b : Bool) (n : ℕ) (c d e : SseConnection)
      → After c n d
      → After c n e
      → After c n (if b then d else e)
  if-After true n c d e h k = h
  if-After false n c d e h k = k

  drained-After :
      (c : SseConnection)
      → IsSound c
      → After c 0 (flush_queue wrote (record c { draining = false }))
  unfolding IsSound After accounted
  drained-After c (bound, idle, shut, beat, done) =
      let (sound, same) =
        flush_queue-IsSound (record c { draining = false }) bound shut beat done in
      (sound, same ∙ omega (arith))

  pub handle-After :
      (e : Event) (c : SseConnection)
      → IsSound c
      → After c (length (asked (e ∷ []))) (handle wrote c e)
  unfolding handle asked After accounted
  handle-After (enqueued e) c h = enqueue-IsSound c e h
  handle-After drained c h = drained-After c h
  handle-After stream_closed c h = close-IsSound c h
  handle-After stream_failed c h = close-IsSound c h
  handle-After heartbeat_due c h =
      if-After c.heartbeat 0 c (send_keepalive wrote c) c (send_keepalive-IsSound c h)
        (h, omega arith)

  length-asked :
      (e : Event) (es : List Event)
      → length (asked (e ∷ es)) ≡ length (asked (e ∷ [])) + length (asked es)
  unfolding asked
  length-asked (enqueued e) es = omega arith
  length-asked drained es = omega arith
  length-asked stream_closed es = omega arith
  length-asked stream_failed es = omega arith
  length-asked heartbeat_due es = omega arith

  handle_all-After :
      (es : List Event) (c : SseConnection)
      → IsSound c
      → After c (length (asked es)) (handle_all wrote c es)
  unfolding handle_all After asked
  handle_all-After [] c h = (h, omega arith)
  handle_all-After (e ∷ es) c h =
      let (h', n) = handle-After e c h in
      let (h'', m) = handle_all-After es (handle wrote c e) h' in
      (h'', omega (arith, n, m, length-asked e es))

  -- Whatever the stream answers and in whichever order its events, the heartbeat and the calls of
  -- `enqueue` come to a new connection: the queue never holds more than 50 events, and holds some
  -- only while an open connection waits for `drain`; a closed connection has an empty queue, an
  -- ended stream and no heartbeat; and the events asked for are exactly as many as those counted
  -- as sent, those queued, those counted as dropped and those that `close` cleared.
  pub handle_all-IsSound :
      (es : List Event)
      → IsSound (handle_all wrote new_connection es)
        × (accounted (handle_all wrote new_connection es) ≡ length (asked es))
  unfolding After IsSound accounted
  handle_all-IsSound es =
      let (sound, counted) =
        handle_all-After es new_connection (omega arith, refl, refl, refl, refl) in
      (sound, counted ∙ zero-add (length (asked es)))
