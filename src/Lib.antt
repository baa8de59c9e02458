-- ===== src/Lib.antt =====
-- A model of the resilience core of the HTTP client in src/, with the theorems that hold of it.
--
-- Every request of the client is a ticket. An attempt passes the gate of its partition (a pause that the
-- host asked for, then the rate limit), takes a slot of the partition's bulkhead and a permit of the
-- global semaphore, and runs. Its outcome goes to the partition's circuit breaker; whether a failed
-- attempt is retried, and when, is decided by the retry policy, the backoff and the retry budget.
--
--   Common            tests on native numbers, lists, integers, texts and doubles that the other files share
--   Errors            src/core/errors.ts: the error classes, one constructor each
--   Policy            src/queue/policy.ts: defaultRetryPolicy, shouldRetry
--   Backoff           src/core/backoff.ts, resolveRetryDelay of src/queue/retry.ts
--   Timer             src/core/timer.ts: setLongTimeout, as the delays it arms; Timer.Sleep is sleep
--   Pause             src/queue/pause.ts: PartitionPause
--   Semaphore         src/queue/semaphore.ts: acquire, release, the drain loop, aborts
--   Buckets           the bucketed windows that the breaker and the retry budget have in common
--   Breaker           src/queue/circuit-breaker.ts: Breaker.Window is RollingWindow, Breaker.Permits
--                     the permits of tryAcquire, Breaker the class CircuitBreaker
--   RateLimiter       src/queue/rate-limiter.ts: TokenBucket
--   RetryBudget       src/queue/retry-budget.ts: BudgetWindow and RetryBudget
--   Registry          src/queue/partition-registry.ts: get, its sweep, and the size at which it sweeps
--   Bulkhead          src/queue/bulkhead.ts: run and its callbacks, the slots and the wait queue;
--                     Bulkhead.Admission is takeToken, refusalAfter, notePushback and guard
--   Ticket            src/ticket/ticket.ts: the status, the controller, cancel; Ticket.Subscribe is
--                     subscribe
--   RetryLoop         src/queue/retry.ts: runRetryLoop
--   RetryAfter        src/queue/executor.ts: parseRetryAfter and the three forms of an HTTP date
--   Executor          src/queue/executor.ts: executeRequest, composeMiddleware; Executor.Abandon is
--                     settleOnAbort, Executor.Bytes readBody and readBytes
--   Redact            src/core/redact.ts
--   Idempotency       src/core/idempotency.ts
--   Emitter           src/core/listeners.ts
--   FaultyFetch       src/testing/index.ts: mulberry32 and the draws of faultyFetch, its options and what
--                     a fault does
--   Identifiers       src/core/nanoid.ts
--   Lifecycle         src/core/types.ts: the lifecycle events
--   Metrics           src/core/metrics.ts, emitMetrics of src/core/client.ts; Metrics.Sink is
--                     otelMetricsSink of src/otel/index.ts
--   Tracing           src/otel/index.ts: instrumentTracing
--   Middleware        src/middleware/index.ts
--   Client            src/core/client.ts: send, _fireFirstAttempt, _scheduleInBulkhead, as the log of
--                     what one request does; Client.Address is resolveUrl, tryResolvePartition
--   Inflight          src/core/client.ts: the tickets in flight, their cleanup, close
--   Merge             src/core/client.ts: mergeTimeout; src/core/types.ts: partitionLookup;
--                     Merge.Partition is src/queue/bulkhead.ts: mergeOptional
--   Validate          src/core/validate.ts; Validate.Sections has the sections of a configuration and
--                     validateConfig
--
-- State is a record, and a method takes it and returns it changed. The clock is an argument: a method
-- reads one value of it. Methods that run to completion are functions; what a promise does later, an
-- abort of a signal and what other users of a shared object do are operations of their own, and a
-- history is a list of operations in any order. Promises and calls are numbered in the order they are
-- made. Names in snake case are the source's; a private field keeps its name without the underscore.
--
-- Numbers are natural numbers, where the source has doubles, which are exact below 2^53; so times
-- and delays are whole milliseconds; only Validate and Merge, where numbers get in, have
-- JavaScript's own (Common.Number). Where the code multiplies or divides so that a double is rounded
-- and the result decides, in the failure rate of the circuit breaker and in the allowance of the
-- retry budget, each operation is rounded as a double's is (Common.Double); the exponent's range is
-- taken to suffice. The token bucket is exact: it counts in a unit so small that a token and the
-- arrivals of a millisecond are whole numbers of it. Loops are structural recursion on the queue or
-- the text they walk. Three are on fuel: that of the timer, which is given one unit for each chunk
-- of the longest delay a timer takes, and one more, the bitwise operators of FaultyFetch, which take
-- the 32 bits that the source's have, and the count of a number's binary digits in Common.Double,
-- which is given 160, where a product of two doubles needs 108. RetryLoop is recursion on the
-- retries that are left.
--
-- Random numbers, what a caller's callbacks answer and what the fetch returns are parameters. Not
-- modelled: the fetch and the decoding of bodies, listeners' own code, the client's log lines, messages of
-- errors, the merging of retry options, and what third-party tracing, metrics and schema libraries do.
pub mod Backoff
pub mod Breaker
pub mod Buckets
pub mod Bulkhead
pub mod Client
pub mod Common
pub mod Emitter
pub mod Errors
pub mod Executor
pub mod FaultyFetch
pub mod Idempotency
pub mod Identifiers
pub mod Inflight
pub mod Lifecycle
pub mod Merge
pub mod Metrics
pub mod Middleware
pub mod Pause
pub mod Policy
pub mod RateLimiter
pub mod Redact
pub mod Registry
pub mod RetryAfter
pub mod RetryBudget
pub mod RetryLoop
pub mod Semaphore
pub mod Ticket
pub mod Timer
pub mod Tracing
pub mod Validate
