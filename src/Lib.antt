-- ===== src/Lib.antt =====
-- The verification library of agent-runs: a service that keeps the runs of agents, hands the queued
-- ones to workers under leases, and lets people answer the questions a run pauses on.
--
-- The parts and the files that model them:
-- - Base (Base/Tests, Base/Lists, Base/Results, Base/Members): Boolean tests, lists over the native
--   numbers, and `Result`, the error of a request as a value (src/agent_runs/domain/errors.py).
-- - Retry: src/agent_runs/retry.py, the backoff, its jitter and the breaker.
-- - Answering: src/agent_runs/answering.py and `KeyInfo` of src/agent_runs/keys.py.
-- - Answers: sdk/python/src/trellis/runs/answers.py, which the service calls too.
-- - Run: src/agent_runs/store/runs.py. Run/Status and Run/Rows are the statuses and the rows of
--   src/agent_runs/store/tables.py, with the requests of src/agent_runs/domain/runs.py; Run/Moves the
--   helpers on one row (`_move`, `_fence`, `_settled`, `_requeue`, `_retried`, `_counted`, `_lease`);
--   Run/Store how a row is found, locked and written back. Run/Starts is `start`, Run/Pause `pause`,
--   Run/Resume `resume`, Run/Ending `cancel` and `finish`, Run/Leasing `heartbeat` and `release`,
--   Run/Queue the query of `_next_queued`, Run/Claim the loop of `claim`, Run/Sweeps the four sweeps of
--   the ticker, Run/Retention `purge_ended`, Run/Events the event
--   log with `check_artifact_writer`, and Run/Artifacts src/agent_runs/store/artifacts.py.
--   Run/Service puts them together as requests to one set of tables. The other files of Run hold the proofs.
-- - Outbox: src/agent_runs/store/webhooks.py, the subscriptions and the deliveries owed to them.
-- - Limiter: src/agent_runs/api/ratelimit.py, the budget of requests of a tenant.
-- - Sender: src/agent_runs/webhooks.py, one attempt at a delivery, with the guard of its addresses,
--   src/agent_runs/egress.py. The resolver, the HTTP client, the encoder and the digest are given.
-- - Schedule: the recurring runs. Schedule/Cadence is src/agent_runs/domain/cadence.py, Schedule/Rows the
--   rows and requests (src/agent_runs/domain/schedules.py), Schedule/Store `ScheduleStore` of
--   src/agent_runs/store/schedules.py, and Schedule/Firing `Firing` of src/agent_runs/firing.py, which
--   queues the run of a tick through the run store. A cadence's occurrences (croniter), the zones, the
--   digest of an input and the contracts' validation of a spec are given (`Cron`, `Formats`, `World`),
--   and so is whether the database refuses the start of a fire.
-- - Ticker: src/agent_runs/ticker.py, a pass of the background loop over all tables, its steps each a
--   transaction that fails as a whole (`transact`), and the loop around it. What a pass meets (`Pass`)
--   is given: the rows other transactions hold, the draws, the attempts of webhooks, the blobs that are
--   deleted, and the transactions at which the database fails.
-- - Signing: `sign` and `verify_signature` of sdk/python/src/trellis/runs/webhooks.py, on texts as lists
--   of code points, with the decimal numbers, `split`, `join`, `partition` and `strip` they use written
--   out; the keyed digest is given.
-- - Keys: `KeyRegistry` of src/agent_runs/keys.py, the cache of the key registry's answers, with the
--   registry's replies given.
-- - Paging: src/agent_runs/store/paging.py and the listings of the stores over it (`RunStore.list`,
--   `resolutions`, `ScheduleStore.list`, `WebhookStore.list`, `deliveries`); how the database orders
--   texts is given, and a cursor is the position it names.
-- - Worker: sdk/python/src/trellis/runs/worker.py, one attempt at a claimed run (`_execute` and
--   `_heartbeat`) as the events that may interleave.
-- - Tests: small examples that the theorems are applied to.
--
-- How the code is modelled. The tables are a record of lists (`Db`); an operation is a function of the
-- tables, its arguments and the instant it runs at, and returns its answer with the tables it leaves,
-- or the error, with which the transaction is rolled back. An operation on one row is the same
-- operation of the code as a function of the row (`pause_row` for `pause`), run by `change_run`, which
-- finds the row, writes it back and starts the retention of an ended run's artifacts. Instants and
-- durations are counts of microseconds, so the rounding of the code's floats is not kept; a
-- subtraction stops at 0 where the code writes `max(0.0, ...)`. JSON values are their texts. Row locks
-- that are skipped (`SKIP LOCKED`) are a test on rows that the caller gives, the advisory locks of a
-- claim a test on locks, and the random draw of the jitter a number below 2 ^ 53.
--
-- Parameters (`Contracts`): the transition rule `RunStatus.can_become` of the contracts package, of
-- which `Follows` states the documented lifecycle; whether a resolution answers an interrupt; the JSON
-- Schema check; the stable id of an answer; and whether an error of category TIMEOUT is retryable.
--
-- Bounds and fuel: the loop of `claim` passes a tenant or a key over in each round and so leaves out at
-- least one more row; the rounds it is given, one more than there are rows, are enough.
--
-- Not modelled: the HTTP routes and the SDK's client, settings, logs and metrics, the blob stores'
-- bytes, the migrations, the text of a cursor, and the loop in which the SDK's
-- worker claims runs and stops.
-- The database itself is taken at its documentation: one transaction sees one state of the rows it
-- locks.
pub mod Base
pub mod Retry
pub mod Answering
pub mod Run
pub mod Answers
pub mod Outbox
pub mod Limiter
pub mod Schedule
pub mod Ticker
pub mod Signing
pub mod Keys
pub mod Paging
pub mod Worker
pub mod Sender
mod Tests
