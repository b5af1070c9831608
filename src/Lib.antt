-- ===== src/Lib.antt =====
-- forge-queue: a durable job queue on PostgreSQL, with workers that lease jobs, a cron scheduler
-- that enqueues them, a rate limiter on Redis and a hub of events for the dashboard.
--
-- The parts and how they meet. Clients, the scheduler and the gRPC service call Queue.Enqueue;
-- each slot of a worker pool calls Dequeue, runs a handler, and calls Ack or Nack, while a heartbeat
-- calls ExtendLease; operators call Cancel and RequeueDLQ. All of these meet only in the tables of
-- one database, so a history of the system is a list of calls, each with its surroundings.
--
-- Which file models what:
--   * Prelude: names of the libraries, tests, lists, Go's signed integers.
--   * Tables: the tables of migrations/0001_init.up.sql and the structs of internal/queue that
--     their rows are scanned into; Tables/Rows: UPDATE, ORDER BY, IN and comparisons with NULL;
--     Tables/Find, Order, Member: laws of these.
--   * Tx: statements and transactions through pgx, with what may go wrong with each. `Env` holds
--     what is outside the program: the clocks, uuid.New, the connection, the row locks of other
--     sessions, the input function of jsonb.
--   * Queue: internal/queue/postgres.go. Params (EnqueueParams, normalizeEnqueueParams,
--     ensureTenant), Enqueue, Dequeue, Settle (Ack, Nack, ExtendLease, Cancel, RequeueDLQ),
--     Backoff (BackoffDelay) and Views (GetJob, ListDLQ, RecentJobs, Depth, StateCounts, RunCount)
--     are the code. History has the calls and their sequences; Effects, Inserts and Claims say
--     what each call makes of the tables. The other modules are named for what they prove:
--     Lifecycle and Traces (the state machine of a job), WellFormed (the invariant of the
--     database), Leases, Picking, Preference and Supply (what Dequeue hands out), Outcomes and
--     Nacks (what Ack and Nack answer), Keys and Holders (idempotency keys), Delays (the range of
--     BackoffDelay). Counts (StateCounts), Lookups (a job read back), Reversals (Cancel and
--     RequeueDLQ, exactly). Spec is an abstract machine for one job, Spec/Refines the calls as its
--     steps, Spec/Retries its failures counted.
--   * Scheduler: Tick, fire and initializeNextRuns of internal/scheduler/scheduler.go; Once:
--     firings and their repetition; Ticks: the schedules that a Tick is not for; Store and
--     Creation: SetEnabled, Delete, Create and List of internal/scheduler/store.go; Creation/Due:
--     a new schedule and the Ticks that come.
--   * Worker: normalize, loop, execute and heartbeat of internal/worker/pool.go; Progress: a job
--     from its poll to its end; Heartbeat: the lease that it keeps; Failures: a job whose handler
--     fails; Slots: Run, loop and the heartbeats as moves of several slots, with Slots/Kept,
--     Slots/Moves, Slots/Exclusive and Slots/Completion; Handlers: internal/worker/registry.go.
--   * RateLimit: Limiter and the Lua script of internal/ratelimit/ratelimit.go; Bound.
--   * Events: Hub of internal/api/events.go; Safety: its goroutines; Bus: RedisEvents and the loop of
--     ServeSSE; Bus/Delivery: events on their way.
--   * Api: submitJob, cancelJob, requeueDLQ and getJob of internal/api/server.go; Schedules and
--     Reads: its other handlers and StartStatsTicks; Routes: Router and cors; Submissions: what the
--     answer to POST /v1/jobs says.
--   * Cli: cmd/forge-cli/main.go; Routed: its requests against the routes.
--   * Grpc: the handlers of internal/grpcsvc/server.go; Agreement: SubmitJob against POST /v1/jobs.
--   * Config: internal/config/config.go; Names: the names of queues in QUEUES.
--   * Metrics: the series in Redis and Snapshot of internal/metrics/metrics.go; Percentiles and
--     Throughput: what Snapshot reports.
--   * Examples: small tables, and each theorem applied to them.
--
-- How the code is modelled. A call is a function from the tables to a result and the tables after
-- it. A Go error is a value: ErrInvalidTransition, pgx.ErrNoRows, or `database` for every other. A
-- statement works, is refused, or is done and not reported; a transaction whose body fails is
-- rolled back, and one whose commit is not reported may have been done. Calls are atomic: the
-- transactions of concurrent sessions appear one after the other, and rows that another session
-- holds locked are those that SKIP LOCKED passes over; two sessions that wait for one another's
-- row locks appear in the order in which they get them. Under READ COMMITTED a call of another
-- session may also come between two statements of one transaction, such as an ExtendLease between
-- the first two UPDATEs of Dequeue; these interleavings are left out. Timestamps are numbers of
-- microseconds, durations numbers of nanoseconds; an interval is rounded to microseconds as its
-- text is, up to exact halves. UUIDs are numbers, and uuid.New may give any: a number that is
-- taken is refused by the primary key. The counters attempts and priority are natural numbers; no
-- wrap-around of attempts (int) is modelled, since it would take 2^31 claims of one job. int64
-- durations keep their wrap-around in Backoff, where what Go makes of a float64 out of range is a
-- parameter. Recursion is structural everywhere, and no fuel is needed.
--
-- Not modelled: the counters for Prometheus, headers, the decoding of JSON, published events,
-- tracing, the connection pool and migrations, the mains, generated stubs (I/O or wiring, or still to
-- be done); contexts and timeouts of the worker, beyond a call that fails, and the grace of its
-- shutdown; the doubles of Lua, which are exact thousandths of a token here; the cron parser, which is
-- a parameter.
mod Prelude
pub mod Tables
pub mod Tx
pub mod Queue
pub mod Scheduler
pub mod Worker
pub mod RateLimit
pub mod Events
pub mod Api
pub mod Grpc
pub mod Config
pub mod Metrics
pub mod Cli
mod Examples
