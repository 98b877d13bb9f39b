-- ===== src/Ingestion/Sse.antt =====
-- src/core/ingestion/sse_manager.ts: one `SseConnection` (here), what its queue keeps and in which
-- order it writes, and the `SseManager` (in the children).
pub mod Invariant
pub mod Order
pub mod Manager
mod Tests
use iot_billing_backend.Common.{
  ℕ, ◌+◌, String, Bool, true, false, not, ◌||◌, List, [], ◌∷◌, ◌++◌, length, leb, if◌then◌else◌,
}

-- `MAX_QUEUE_DEPTH` and `KEEPALIVE_COMMENT`
abbrev pub max_queue_depth : ℕ
max_queue_depth = 50

abbrev pub keepalive_comment : String
keepalive_comment = ":keepalive\n\n"

-- `SseConnection`. `written` is what `reply.raw.write` was called with, the newest first: a call
-- that returns false has buffered its argument too. `sent` are the events that
-- `incrementSseEventsSent` counts and `discarded` counts those that `close` clears from the queue;
-- the code keeps neither.
pub record SseConnection : Type 0 where
  pub queue : List String
  pub draining : Bool
  pub closed : Bool
  pub dropped_count : ℕ
  pub heartbeat : Bool
  pub ended : Bool
  pub written : List String
  pub sent : List String
  pub discarded : ℕ

-- The constructor: the three listeners are the events below.
abbrev pub new_connection : SseConnection
new_connection = record {
  queue = [];
  draining = false;
  closed = false;
  dropped_count = 0;
  heartbeat = true;
  ended = false;
  written = [];
  sent = [];
  discarded = 0;
}

-- `close`, whether the stream was writable or not: the stream has ended after it.
unfoldable pub close : SseConnection → SseConnection
close c = if c.closed then c else record c {
  closed = true;
  heartbeat = false;
  discarded = c.discarded + length c.queue;
  queue = [];
  ended = true;
}

-- What `Array.prototype.shift` leaves.
unfoldable pub shift : List String → List String
shift [] = []
shift (e ∷ es) = es

-- What a connection's stream does to it, and what the program asks of it.
pub data Event : Type 0 where
  enqueued : String → Event
  drained : Event
  stream_closed : Event
  stream_failed : Event
  heartbeat_due : Event

-- The stream decides what each call of `write` returns: `wrote n` is the answer to the call after
-- n calls.
module _ (wrote : ℕ → Bool) where
  -- The loop of `flushQueue` over the queue, which is a connection that is not draining.
  unfoldable pub flush_loop : List String → SseConnection → SseConnection
  flush_loop [] c = record c { queue = [] }
  flush_loop (event ∷ queue) c =
      let rest =
        flush_loop queue
          (record c { written = event ∷ c.written; sent = c.sent ++ (event ∷ []) }) in
      if wrote (length c.written)
      then rest
      else record c { written = event ∷ c.written; draining = true; queue = event ∷ queue }

  unfoldable pub flush_queue : SseConnection → SseConnection
  flush_queue c = if c.closed || c.draining then c else flush_loop c.queue c

  -- The part of `enqueue` that makes room.
  unfoldable pub make_room : SseConnection → SseConnection
  make_room c =
      if leb max_queue_depth (length c.queue)
      then record c { queue = shift c.queue; dropped_count = c.dropped_count + 1 }
      else c

  unfoldable pub enqueue : SseConnection → String → SseConnection × Bool
  enqueue c event =
      if c.closed then (record c { dropped_count = c.dropped_count + 1 }, false) else (
        let roomy = make_room c in
            flush_queue (record roomy { queue = roomy.queue ++ (event ∷ []) }),
        true,
      )

  unfoldable pub send_keepalive : SseConnection → SseConnection
  send_keepalive c = if c.closed then c else record c {
    written = keepalive_comment ∷ c.written;
    draining = c.draining || not (wrote (length c.written));
  }

  -- The listeners of the constructor, and its heartbeat, which `close` stops.
  unfoldable pub handle : SseConnection → Event → SseConnection
  handle c (enqueued e) = (enqueue c e).0
  handle c drained = flush_queue (record c { draining = false })
  handle c stream_closed = close c
  handle c stream_failed = close c
  handle c heartbeat_due = if c.heartbeat then send_keepalive c else c

  unfoldable pub handle_all : SseConnection → List Event → SseConnection
  handle_all c [] = c
  handle_all c (e ∷ es) = handle_all (handle c e) es
