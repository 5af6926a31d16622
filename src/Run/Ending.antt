-- ===== src/Run/Ending.antt =====
-- `RunStore.cancel` and `RunStore.finish`: how a run ends.
use agent_runs.Base.{
  ℕ, ◌+◌, String, Bool, true, false, ◌&&◌, ◌||◌, Option, some, opt_eq, is_some, if◌then◌else◌,
  Result, ok, unprocessable, raise_if, not, ◌>>=◌, ◌>>◌,
}
use agent_runs.Retry.{backoff, in_range, jittered}
use agent_runs.Answering.{KeyInfo, require_may_cancel}
use agent_runs.Run.Status.{queued, running, error, cancelled, final, status_eq}
use agent_runs.Run.Rows.{RunRow, RunFinish, Db, Contracts}
use agent_runs.Run.Moves.{
  error_retry_base, error_retry_cap, move, fence, settled, requeue, retried, counted,
}
use agent_runs.Run.Store.{RunRecord, change_run}

-- A run a worker holds is asked to stop; any other ends at once.
unfoldable pub stop_row : Contracts → RunRow → ℕ → Result RunRow
unfolding move
stop_row c row now =
    if status_eq row.status running && is_some row.lease_owner
    then ok (record row { cancel_requested_at = some now; updated_at = now })
    else move c row cancelled now

-- Whether this very cancel was already asked for, or took the run's end.
unfoldable pub already_cancelled : RunRow → KeyInfo → Option String → Bool
already_cancelled row canceller reason =
    is_some row.cancel_requested_at
    || (status_eq row.status cancelled
        && (opt_eq row.cancelled_by (some canceller.principal) && opt_eq row.cancel_reason reason))

unfoldable pub cancel_row :
    Contracts → KeyInfo → Option String → ℕ → RunRow → Result (RunRow × Bool)
unfolding stop_row already_cancelled
cancel_row c canceller reason now row = do
  require_may_cancel canceller row.assignee
  if already_cancelled row canceller reason then ok (row, false) else do
    r ← stop_row c row now
    ok (record r { cancel_reason = reason; cancelled_by = some canceller.principal }, true)

-- `RunStore.cancel`
unfoldable pub cancel :
    Contracts
    → String
    → String
    → Option String
    → KeyInfo
    → ℕ
    → Db
    → Result ((RunRecord × Bool) × Db)
cancel c tenant run reason canceller now db =
    change_run db tenant run now (cancel_row c canceller reason now)

-- The retry of a finish that is not to stand: back on the queue after a jittered backoff. `draw` is
-- what `random` drew for the jitter.
unfoldable pub retry_row : Contracts → ℕ → RunRow → Option String → ℕ → Result (RunRow × Bool)
unfolding requeue
retry_row c draw row worker now =
    let once_more = record row { error_retries = row.error_retries + 1 } in
    do
      wait ← in_range (backoff error_retry_base once_more.error_retries error_retry_cap)
      r ← requeue c once_more now (some (jittered wait draw))
      ok (record r { settled_by = worker }, true)

-- The ending that stands.
unfoldable pub end_row : Contracts → RunRow → RunFinish → Option String → ℕ → Result (RunRow × Bool)
unfolding move counted
end_row c row ending worker now = do
  r ← move c row ending.status now
  ok (
    record r {
      output = ending.output;
      error = counted ending.error row.error_retries;
      settled_by = worker;
    },
    true,
  )

-- Whether the finish repeats the one that made the run's state, or put it back on the queue.
unfoldable pub finished_before : RunRow → RunFinish → Option String → Bool
unfolding settled
finished_before row ending worker =
    settled row ending.status worker
    || (status_eq ending.status error && (is_some worker && settled row queued worker))

unfoldable pub finish_row :
    Contracts → ℕ → RunFinish → Option String → ℕ → RunRow → Result (RunRow × Bool)
unfolding finished_before fence
finish_row c draw ending worker now row =
    if finished_before row ending worker then ok (row, false) else do
      fence row worker
      if retried row ending
          then retry_row c draw row worker now
          else end_row c row ending worker now

-- `RunFinish._is_an_ending`, as far as it is this repository's: the status is an ending.
unfoldable pub is_an_ending : RunFinish → Result (Unit {0})
is_an_ending ending = raise_if (not (final ending.status)) unprocessable

-- `RunStore.finish`, behind the validator of its request.
unfoldable pub finish :
    Contracts
    → ℕ
    → String
    → String
    → RunFinish
    → Option String
    → ℕ
    → Db
    → Result ((RunRecord × Bool) × Db)
unfolding is_an_ending
finish c draw tenant run ending worker now db = do
  is_an_ending ending
  change_run db tenant run now (finish_row c draw ending worker now)
