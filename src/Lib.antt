-- ===== src/Lib.antt =====
-- Verification library of the IoT billing backend (TypeScript): models of its own logic and the
-- theorems about them.
--
-- Parts of the program and the files that model them (paths from the repository's root):
--   Billing          src/billing: StateMachine (state_machine.ts), Store (the in-memory store of
--                    billing_cycle_repository.ts; Store/Postgres has the other store, over its two
--                    tables), Finalizer (finalizer.ts), Scheduler (scheduler.ts), Uuid (uuidv7.ts,
--                    which mints the finalizer's keys). The finalizer reads and
--                    writes cycles through the store; the event pipeline and the scheduler both call
--                    it, so Finalizer/Steps cuts it at its `await`s and runs any number of calls in
--                    any order.
--   Events           src/ingestion/eventStore.ts: the per-tenant event log in a table.
--   Batches          src/ingestion/batchManager.ts, batchCompactor.ts, telemetryStore.ts: batches of
--                    telemetry, their compaction and rotation under advisory locks.
--   Ingestion        src/core/ingestion: StateMachine (IngestionStateMachine of state_machine.ts,
--                    with BillingStateMachine of src/core/blockchain/balance_manager.ts), Budget
--                    (ConnectionBudgetTracker of the same file), Backpressure (backpressure.ts),
--                    Parser and Reassembler (stream_parser.ts), Replay and Reorder (validator.ts),
--                    Sse (sse_manager.ts: one connection, and the manager of all), Locks
--                    (lock_manager.ts, with the locks of Postgres).
--                    A device's bytes go through the reassembler and the parser, its payloads
--                    through the replay guard and the reorder buffer.
--   Pool             src/database/pool_manager.ts: TenantAwarePoolProxy (Picking decides who is
--                    served, Events has the calls and the stretches of processQueue; Counts and
--                    Places follow the counters and the requests) and tenantSchemaName;
--                    RefreshWindow (src/database/aggregate_refresh_window.ts).
--   Blockchain       src/core/blockchain: NoncePool (nonce_pool.ts), RpcClient (rpc_client.ts),
--                    TxManager (tx_manager.ts), which takes nonces from the pool and submits
--                    through the client; Listener (event_listener.ts), Fees (fee_optimizer.ts),
--                    EventBus (ledger_event_bus.ts, which feeds the gap detector of Backpressure),
--                    Balance (balance_manager.ts).
--   Api              src/api: Session and Challenge (auth/session.ts), Bearer
--                    (middleware/auth.ts, which reads the locks that a refresh sets), RateLimiter
--                    and AuthLimiter (middleware/rate_limiter.ts), Mtls
--                    (gateway/mtls_verifier.ts).
--   SafeMath         src/core/utils/math.ts: fixed-point arithmetic on `bigint`.
--   Common           shared names, lists, `Map`s as association lists, integers, results.
--
-- How code becomes definitions. A class is a record and a method a function from the old record to
-- the new one and the result. A promise that may reject is a result type. An asynchronous method
-- that others can interleave with is cut at its `await`s: each stretch is one event of its class,
-- and a run is a list of events. A table of the database is a list of rows, and a statement is a
-- function on it. Strings are native strings, or lists of character codes where a definition looks
-- inside; numbers are natural numbers, and `bigint` is an integer type of this library; wrap-around
-- of 32-bit operations is written out. A clock, a random value, a reply from outside and the calls
-- of others are arguments. Timers are events that may come at any time, and a promise that never
-- settles is a call or an event that gets no further turn. Telemetry values, which are doubles, are
-- whole multiples of one unit, and an average is kept as its two terms.
--
-- Bounds and fuel. A call of the finalizer has five stretches between its `await`s, and Progress
-- shows that five turns are enough. The decimal digits of a number n are written with n + 1 rounds,
-- more than it has digits. The loop that empties the reorder buffer has as many rounds as the buffer
-- has frames, and Reorder/Window shows that it never stops early. A call of catchUp is a list of
-- events, of which it waits for four at most for each ledger to come (Listener/CatchUp). All other
-- loops are structural.
--
-- `String(n)` and `Number(s)` at the event bus are an interface, `Numerals`, with the law that a
-- number is read back. The library for session tokens is an interface, `Jwt`, with the law that a
-- signed token gives back its payload until it expires. The answers of a client's stream to each
-- write, the replies of Redis, and the check of a signature are parameters without laws.
--
-- Not modelled: HTTP routes, configuration, metrics and tracing, which have little logic of their
-- own; the SQL of migrations; the contracts, which are not TypeScript; and for now backoff, the
-- telemetry schema, the retries and listeners of the lock manager, the poll that starts catchUp, and
-- the interleavings of refreshSession and verifyConnection.
pub mod Common
pub mod Api
pub mod Billing
pub mod Events
pub mod Batches
pub mod Ingestion
pub mod Pool
pub mod Blockchain
pub mod SafeMath
