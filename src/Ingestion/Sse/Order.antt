-- ===== src/Ingestion/Sse/Order.antt =====
-- src/core/ingestion/sse_manager.ts: in which order a connection sends its events, and what a
-- refused write does.
use iot_billing_backend.Common.{
  ℕ, ◌+◌, ◌≡◌, refl, sym, ap, ◌∙◌, String, Bool, true, false, List, [], ◌∷◌, ◌++◌, length, arith,
  Bool-cases, inl, inr, append_assoc, if◌then◌else◌, ◌||◌, leb,
}
use mathlib.Core.Path.{subst}
use iot_billing_backend.Ingestion.Sse.{
  SseConnection, Event, enqueued, drained, stream_closed, stream_failed, heartbeat_due,
  new_connection, close, shift, flush_loop, flush_queue, make_room, enqueue, send_keepalive, handle,
  handle_all, max_queue_depth,
}
use iot_billing_backend.Ingestion.Sse.Invariant.{asked, Flushed, flush_loop-Flushed, queued}

-- `Sub xs ys`: `xs` is `ys` without some of its elements.
pub data Sub : List String → List String → Type 0 where
  nothing : Sub [] []
  keep : {xs ys : List String} → (y : String) → Sub xs ys → Sub (y ∷ xs) (y ∷ ys)
  skip : {xs ys : List String} → (y : String) → Sub xs ys → Sub xs (y ∷ ys)

Sub-refl : (xs : List String) → Sub xs xs
Sub-refl [] = nothing
Sub-refl (x ∷ xs) = keep x (Sub-refl xs)

Sub-none : (xs : List String) → Sub [] xs
Sub-none [] = nothing
Sub-none (x ∷ xs) = skip x (Sub-none xs)

Sub-trans : {xs ys zs : List String} → Sub xs ys → Sub ys zs → Sub xs zs
Sub-trans s nothing = s
Sub-trans s (skip y t) = skip y (Sub-trans s t)
Sub-trans (keep x s) (keep _ t) = keep x (Sub-trans s t)
Sub-trans (skip _ s) (keep y t) = skip y (Sub-trans s t)

Sub-append :
    {xs ys : List String} → (e : String) → Sub xs ys → Sub (xs ++ (e ∷ [])) (ys ++ (e ∷ []))
Sub-append e nothing = keep e nothing
Sub-append e (keep y s) = keep y (Sub-append e s)
Sub-append e (skip y s) = skip y (Sub-append e s)

Sub-later : {xs ys : List String} → (zs : List String) → Sub xs ys → Sub xs (ys ++ zs)
Sub-later zs nothing = Sub-none zs
Sub-later zs (keep y s) = keep y (Sub-later zs s)
Sub-later zs (skip y s) = skip y (Sub-later zs s)

Sub-behind : {xs ys : List String} → (ps : List String) → Sub xs ys → Sub (ps ++ xs) (ps ++ ys)
Sub-behind [] s = s
Sub-behind (p ∷ ps) s = keep p (Sub-behind ps s)

shift-Sub : (xs : List String) → Sub (shift xs) xs
unfolding shift
shift-Sub [] = nothing
shift-Sub (x ∷ xs) = skip x (Sub-refl xs)

-- What is sent or still queued stands in `done`, in its order.
InOrder : SseConnection → List String → Type 0
InOrder c done = Sub (c.sent ++ c.queue) done

if-InOrder :
    (b : Bool) (c d : SseConnection) (done : List String)
    → InOrder c done
    → InOrder d done
    → InOrder (if b then c else d) done
if-InOrder true c d done h k = h
if-InOrder false c d done h k = k

close-InOrder : (c : SseConnection) (done : List String) → InOrder c done → InOrder (close c) done
unfolding close InOrder
close-InOrder c done h = elim (Bool-cases c.closed) [
  | inl off ↦ simp off h
  | inr on ↦ simp on (Sub-trans (Sub-behind c.sent (Sub-none c.queue)) h)
]

module _ (wrote : ℕ → Bool) where
  flush_queue-InOrder :
      (c : SseConnection) (done : List String) → InOrder c done → InOrder (flush_queue wrote c) done
  unfolding flush_queue InOrder Flushed
  flush_queue-InOrder c done h =
      let (kept, f0, f1, f2, f3, f4, f5, f6, f7) = flush_loop-Flushed wrote c.queue c in
      elim (Bool-cases (c.closed || c.draining)) [
        | inl stuck ↦ simp stuck h
        | inr free ↦ simp free (subst (λ es. Sub es done) (sym kept) h)
      ]

  make_room-InOrder :
      (c : SseConnection) (done : List String) → InOrder c done → InOrder (make_room wrote c) done
  unfolding make_room InOrder
  make_room-InOrder c done h = elim (Bool-cases (leb max_queue_depth (length c.queue))) [
    | inl full ↦ simp full (Sub-trans (Sub-behind c.sent (shift-Sub c.queue)) h)
    | inr roomy ↦ simp roomy h
  ]

  -- One more event behind the queue.
  push-InOrder :
      (c : SseConnection) (e : String) (done : List String)
      → InOrder c done
      → InOrder (record c { queue = c.queue ++ (e ∷ []) }) (done ++ (e ∷ []))
  unfolding InOrder
  push-InOrder c e done h =
      subst (λ es. Sub es (done ++ (e ∷ []))) (append_assoc c.sent c.queue (e ∷ []))
        (Sub-append e h)

  refused-InOrder :
      (c : SseConnection) (e : String) (done : List String)
      → InOrder c done
      → InOrder (record c { dropped_count = c.dropped_count + 1 }) (done ++ (e ∷ []))
  unfolding InOrder
  refused-InOrder c e done h = Sub-later (e ∷ []) h

  enqueue-InOrder :
      (c : SseConnection) (e : String) (done : List String)
      → InOrder c done
      → InOrder (enqueue wrote c e).0 (done ++ (e ∷ []))
  unfolding enqueue queued InOrder
  enqueue-InOrder c e done h = elim (Bool-cases c.closed) [
    | inl off ↦ simp off (refused-InOrder c e done h)
    | inr on ↦ simp on (
        flush_queue-InOrder (queued wrote c e) (done ++ (e ∷ []))
          (push-InOrder (make_room wrote c) e done (make_room-InOrder c done h)))
  ]

  -- An event that asks for nothing to be sent.
  silent-InOrder :
      (c : SseConnection) (done : List String) → InOrder c done → InOrder c (done ++ [])
  unfolding InOrder
  silent-InOrder c done h = Sub-later [] h

  drained-InOrder :
      (c : SseConnection) (done : List String)
      → InOrder c done
      → InOrder (flush_queue wrote (record c { draining = false })) done
  unfolding InOrder
  drained-InOrder c done h = flush_queue-InOrder (record c { draining = false }) done h

  keepalive-InOrder :
      (c : SseConnection) (done : List String)
      → InOrder c done
      → InOrder (send_keepalive wrote c) done
  unfolding send_keepalive InOrder
  keepalive-InOrder c done h = elim (Bool-cases c.closed) [
    | inl off ↦ simp off h
    | inr on ↦ simp on h
  ]

  handle-InOrder :
      (e : Event) (c : SseConnection) (done : List String)
      → InOrder c done
      → InOrder (handle wrote c e) (done ++ asked (e ∷ []))
  unfolding handle asked
  handle-InOrder (enqueued e) c done h = enqueue-InOrder c e done h
  handle-InOrder drained c done h = silent-InOrder _ done (drained-InOrder c done h)
  handle-InOrder stream_closed c done h = silent-InOrder (close c) done (close-InOrder c done h)
  handle-InOrder stream_failed c done h = silent-InOrder (close c) done (close-InOrder c done h)
  handle-InOrder heartbeat_due c done h =
      silent-InOrder (if c.heartbeat then send_keepalive wrote c else c) done
        (if-InOrder c.heartbeat (send_keepalive wrote c) c done (keepalive-InOrder c done h) h)

  asked-append : (e : Event) (es : List Event) → asked (e ∷ []) ++ asked es ≡ asked (e ∷ es)
  unfolding asked
  asked-append (enqueued e) es = refl
  asked-append drained es = refl
  asked-append stream_closed es = refl
  asked-append stream_failed es = refl
  asked-append heartbeat_due es = refl

  handle_all-InOrder_from :
      (es : List Event) (c : SseConnection) (done : List String)
      → InOrder c done
      → InOrder (handle_all wrote c es) (done ++ asked es)
  unfolding handle_all asked
  handle_all-InOrder_from [] c done h = silent-InOrder c done h
  handle_all-InOrder_from (e ∷ es) c done h =
      subst (λ all. InOrder (handle_all wrote (handle wrote c e) es) all)
        (append_assoc done (asked (e ∷ [])) (asked es) ∙ ap (λ l. done ++ l) (asked-append e es))
        (handle_all-InOrder_from es (handle wrote c e) (done ++ asked (e ∷ []))
          (handle-InOrder e c done h))

  -- Whatever the stream answers and whatever the order of events on a new connection, the events
  -- counted as sent, followed by those still queued, are the events asked for, in the order they
  -- were asked for, without the dropped ones: `Sub` leaves elements out and moves none.
  pub handle_all-InOrder :
      (es : List Event)
      → let c = handle_all wrote new_connection es in Sub (c.sent ++ c.queue) (asked es)
  unfolding InOrder
  handle_all-InOrder es = handle_all-InOrder_from es new_connection [] nothing

  -- A write that returned false is repeated: on an open connection with an empty queue, an event
  -- whose `write` returns false is passed to `write` again when the stream drains, whatever
  -- `write` then returns, although the stream has already taken it.
  pub drained_writes_again :
      (c : SseConnection) (event : String)
      → c.closed ≡ false
      → c.draining ≡ false
      → c.queue ≡ []
      → wrote (length c.written) ≡ false
      → (handle_all wrote c (enqueued event ∷ drained ∷ [])).written ≡ event ∷ event ∷ c.written
  unfolding handle_all handle enqueue flush_queue flush_loop make_room
  drained_writes_again c event on free empty full = ground (arith, on, free, empty, full)
