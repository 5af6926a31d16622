-- ===== src/Run/Moves.antt =====
-- The row-level helpers of src/agent_runs/store/runs.py: the one transition check and what each move
-- does to the row, the fences, and the rules of retrying and of cancelling instead.
use agent_runs.Base.{
  ℕ, ◌+◌, ◌-◌, min, String, Bool, false, not, ◌&&◌, Option, none, some, ltb, ◌==◌, is_some, opt_eq,
  if◌then◌else◌, Result, ok, err, conflict, lease_lost, raise_if, ◌>>=◌, ◌>>◌,
}
use agent_runs.Retry.{seconds, minutes}
use agent_runs.Run.Status.{RunStatus, queued, running, paused, error, cancelled, final, status_eq}
use agent_runs.Run.Rows.{RunRow, RunFinish, AgentError, retried_message, Lease, Contracts}

abbrev pub max_error_retries : ℕ
max_error_retries = 3

abbrev pub max_lease_lapses : ℕ
max_lease_lapses = 5

abbrev pub error_retry_base : ℕ
error_retry_base = seconds 10

abbrev pub error_retry_cap : ℕ
error_retry_cap = minutes 10

abbrev pub lapse_retry_base : ℕ
lapse_retry_base = seconds 5

abbrev pub lapse_retry_cap : ℕ
lapse_retry_cap = minutes 1

-- `_worked`; `-` stops at 0, as `max(0.0, …)` does.
unfoldable pub worked : RunRow → ℕ → ℕ
worked row now = elim row.running_since [
  | none ↦ row.worked_seconds
  | some since ↦ row.worked_seconds + (now - since)
]

-- What `_move` writes once the transition is allowed.
unfoldable pub moved : RunRow → RunStatus → ℕ → RunRow
unfolding worked
moved row to now =
    let is_queued = status_eq to queued in
    let is_running = status_eq to running in
    let is_paused = status_eq to paused in
    record row {
      worked_seconds = worked row now;
      running_since = if is_running then some now else none;
      status = to;
      updated_at = now;
      settled_by = none;
      available_at = if is_queued then row.available_at else none;
      lease_owner = if is_running then row.lease_owner else none;
      lease_expires_at = if is_running then row.lease_expires_at else none;
      cancel_requested_at = if is_running then row.cancel_requested_at else none;
      awaiting = if is_paused then row.awaiting else none;
      assignee = if is_paused then row.assignee else none;
      awaiting_deadline = if is_paused then row.awaiting_deadline else none;
      checkpoint = if final to then none else row.checkpoint;
    }

-- `_move`
unfoldable pub move : Contracts → RunRow → RunStatus → ℕ → Result RunRow
unfolding moved
move c row to now = if not (c.can_become row.status to) then err conflict else ok (moved row to now)

-- `_fence`
unfoldable pub fence : RunRow → Option String → Result (Unit {0})
fence row worker = raise_if (is_some worker && not (opt_eq row.lease_owner worker)) lease_lost

-- `_held_by`
unfoldable pub held_by : RunRow → Option String → Result (Unit {0})
held_by row worker = do
  raise_if (not (is_some worker) && is_some row.lease_owner) conflict
  raise_if (not (opt_eq worker row.lease_owner)) lease_lost

-- `_settled`
unfoldable pub settled : RunRow → RunStatus → Option String → Bool
settled row status worker = status_eq row.status status && opt_eq row.settled_by worker

-- What `_requeue` writes after the move.
unfoldable pub requeued : RunRow → ℕ → Option ℕ → RunRow
requeued row now wait = record row {
  attempt = row.attempt + 1;
  queued_at = some now;
  available_at = elim wait [ none ↦ none | some w ↦ some (now + w) ];
}

-- `_requeue`
unfoldable pub requeue : Contracts → RunRow → ℕ → Option ℕ → Result RunRow
unfolding move requeued
requeue c row now wait = do r ← move c row queued now; ok (requeued r now wait)

abbrev pub error_retryable : Option AgentError → Bool
error_retryable none = false
error_retryable (some e) = e.retryable

-- `_retried`
unfoldable pub retried : RunRow → RunFinish → Bool
retried row ending =
    status_eq ending.status error
    && (error_retryable ending.error
        && (status_eq row.status running
            && (is_some row.queued_at
                && (ltb row.error_retries max_error_retries
                    && not (is_some row.cancel_requested_at)))))

-- `_cancelled_instead`: the cancelled row, or `none` when no cancel was asked for.
unfoldable pub cancelled_instead : Contracts → RunRow → ℕ → Result (Option RunRow)
unfolding move
cancelled_instead c row now =
    if is_some row.cancel_requested_at
    then (do r ← move c row cancelled now; ok (some r))
    else ok none

-- `_counted`
unfoldable pub counted : Option AgentError → ℕ → Option AgentError
counted none retries = none
counted (some e) retries =
    if retries == 0 then some e else some (record e { message = retried_message e.message retries })

-- `RunStore._limit`: the run's own limit or the service's, the lesser.
unfoldable pub limit_of : Option ℕ → RunRow → Option ℕ
limit_of max_run row = elim row.timeout_seconds [
  | none ↦ max_run
  | some own ↦ elim max_run [ none ↦ some own | some most ↦ some (min own most) ]
]

abbrev or_now : Option ℕ → ℕ → ℕ
or_now none now = now
or_now (some at) now = at

-- `RunStore._lease`
unfoldable pub lease : Option ℕ → RunRow → String → ℕ → ℕ → RunRow × Lease
unfolding limit_of worked
lease max_run row worker lease_seconds now =
    let expires = or_now row.cancel_requested_at now + seconds lease_seconds in
    let leased = record row { lease_owner = some worker; lease_expires_at = some expires } in
    (
      leased,
      record {
        run_id = row.run_id;
        worker_id = worker;
        expires_at = expires;
        remaining_seconds = elim (limit_of max_run row) [
          | none ↦ none
          | some most ↦ some (most - worked row now)
        ];
        cancel_requested = is_some row.cancel_requested_at;
      },
    )
