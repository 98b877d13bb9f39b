-- ===== src/Blockchain/RpcClient.antt =====
-- src/core/blockchain/rpc_client.ts: SorobanRpcClient, a queue behind a circuit breaker.
-- `processQueue` runs alone between its `await`s, so the client is a state with events: calls, the
-- end of a back-off delay, and the reply to the request that is out.
pub mod Breaker
use iot_billing_backend.Common.{
  ℕ, ◌+◌, ◌-◌, Bool, true, false, Option, none, some, List, [], ◌∷◌, ◌++◌, ltb, leb, if◌then◌else◌,
  length,
}

-- The enum's member OPEN is `opened` here (`open` is a reserved word).
pub data CircuitState : Type 0 where
  closed opened half_open : CircuitState

pub record CircuitBreakerConfig : Type 0 where
  pub failure_threshold : ℕ
  pub success_threshold : ℕ
  pub timeout_ms : ℕ

abbrev pub max_queue_size : ℕ
max_queue_size = 10000

pub data Verdict : Type 0 where
  resolved failed backpressure : Verdict

-- What `processQueue` waits for.
pub data Waiting : Type 0 where
  idle : Waiting
  for_delay : Waiting
  for_reply : ℕ → Waiting

-- The fields; a request is a number, `processing` is that `waiting` is not `idle`, and of `backoff`
-- there is the attempt counter. The last field is how requests were settled, newest first.
pub record Client : Type 0 where
  pub state : CircuitState
  pub failure_count : ℕ
  pub success_count : ℕ
  pub last_failure_time : ℕ
  pub config : CircuitBreakerConfig
  pub request_queue : List ℕ
  pub waiting : Waiting
  pub backoff_attempt : ℕ
  pub settled : List (ℕ × Verdict)

abbrev pub new_client : CircuitBreakerConfig → Client
new_client config = record {
  state = closed;
  failure_count = 0;
  success_count = 0;
  last_failure_time = 0;
  config = config;
  request_queue = [];
  waiting = idle;
  backoff_attempt = 0;
  settled = [];
}

-- Shifts the next request, and sends it.
abbrev pub send_next : Client → Client
send_next c = elim c.request_queue [
  | [] ↦ record c { waiting = idle }
  | r ∷ rs ↦ record c { request_queue = rs; waiting = for_reply r }
]

-- The head of the `while` loop. In the OPEN state a back-off delay comes first.
abbrev pub next_round : Client → Client
next_round c = elim c.request_queue [
  | [] ↦ record c { waiting = idle }
  | r ∷ rs ↦ elim c.state [
    | opened ↦ record c { waiting = for_delay; backoff_attempt = c.backoff_attempt + 1 }
    | _ ↦ send_next c
  ]
]

unfoldable pub process_queue : Client → Client
process_queue c = elim c.waiting [ idle ↦ next_round c | _ ↦ c ]

unfoldable pub submit_transaction : ℕ → Client → Client
unfolding process_queue
submit_transaction r c =
    if leb max_queue_size (length c.request_queue)
    then record c { settled = (r, backpressure) ∷ c.settled }
    else process_queue (record c { request_queue = c.request_queue ++ r ∷ [] })

-- The end of the back-off delay.
unfoldable pub on_delay : ℕ → Client → Client
on_delay now c = elim c.waiting [
  | for_delay ↦ send_next (
      if ltb c.config.timeout_ms (now - c.last_failure_time)
      then record c { state = half_open }
      else c)
  | _ ↦ c
]

-- `drainQueue` finds `processing` set and does nothing.
unfoldable pub on_success : Client → Client
on_success c = elim c.state [
  | half_open ↦
      if leb c.config.success_threshold (c.success_count + 1)
      then record c { state = closed; failure_count = 0; success_count = 0; backoff_attempt = 0 }
      else record c { success_count = c.success_count + 1; backoff_attempt = 0 }
  | _ ↦ record c { failure_count = 0; backoff_attempt = 0 }
]

-- No code calls this method.
unfoldable pub on_failure : ℕ → Client → Client
on_failure now c =
    if leb c.config.failure_threshold (c.failure_count + 1)
    then record c {
      state = opened;
      failure_count = c.failure_count + 1;
      success_count = 0;
      last_failure_time = now;
    }
    else record c { failure_count = c.failure_count + 1; last_failure_time = now }

-- The end of a round: a half-open circuit has sent its probe and stops.
abbrev pub after_round : Client → Client
after_round c = elim c.state [ half_open ↦ record c { waiting = idle } | _ ↦ next_round c ]

-- The reply to a request, or the failure of `fetch`.
abbrev pub reply_to : ℕ → Bool → Client → Client
reply_to r true c =
    after_round (let c' = on_success c in record c' { settled = (r, resolved) ∷ c.settled })
reply_to r false c = after_round (record c { settled = (r, failed) ∷ c.settled })

unfoldable pub on_reply : Bool → Client → Client
unfolding on_success
on_reply good c = elim c.waiting [ for_reply r ↦ reply_to r good c | _ ↦ c ]

unfoldable pub reset : Client → Client
reset c = record c { state = closed; failure_count = 0; success_count = 0 }

pub data Event : Type 0 where
  submits : ℕ → Event
  delays : ℕ → Event
  replies : Bool → Event
  resets : Event

unfoldable pub handle : Event → Client → Client
unfolding submit_transaction on_delay on_reply reset
handle (submits r) c = submit_transaction r c
handle (delays now) c = on_delay now c
handle (replies good) c = on_reply good c
handle resets c = reset c

unfoldable pub handle_all : List Event → Client → Client
unfolding handle
handle_all [] c = c
handle_all (e ∷ es) c = handle_all es (handle e c)
