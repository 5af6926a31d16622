-- ===== src/Run/Outcomes/Rows.antt =====
-- The rows that a finish and a lapse leave, column by column.
use agent_runs.Base.{
  ℕ, ◌+◌, ◌*◌, ◌^◌, min, ◌≤◌, String, ◌≡◌, ◌⊎◌, true, false, Option, none, some, arith, ok,
}
use agent_runs.Retry.{jittered}
use agent_runs.Retry.Backoff.{backoff_few}
use agent_runs.Run.Status.{queued, final}
use agent_runs.Run.Rows.{RunRow, RunFinish, Contracts}
use agent_runs.Run.Moves.{
  max_error_retries, error_retry_base, error_retry_cap, lapse_retry_base, lapse_retry_cap, worked,
  moved, move, requeued, requeue, retried, counted,
}
use agent_runs.Run.Ending.{retry_row, end_row, finish_row}

-- What a row put back for another try is.
pub record IsRetry (row : RunRow) (wait now : ℕ) (r : RunRow) : Type 0 where
  pub waits : r.status ≡ queued
  pub next_attempt : r.attempt ≡ row.attempt + 1
  pub held_until : r.available_at ≡ some (now + wait)
  pub requeued_at : r.queued_at ≡ some now
  pub unleased : r.lease_owner ≡ none
  pub same_output : r.output ≡ row.output
  pub same_checkpoint : r.checkpoint ≡ row.checkpoint

-- The capped doubling wait of the retry after some, and of the lapse after some.
abbrev pub error_wait : ℕ → ℕ
error_wait retries = min (error_retry_base * 2 ^ retries) error_retry_cap

abbrev pub lapse_wait : ℕ → ℕ
lapse_wait lapses = min (lapse_retry_base * 2 ^ lapses) lapse_retry_cap

-- What the move of a settled run clears and stamps, whatever it moves to but RUNNING and PAUSED.
abbrev pub put_down : RunRow → Option String → ℕ → RunRow
put_down row worker now = record row {
  worked_seconds = worked row now;
  running_since = none;
  lease_owner = none;
  lease_expires_at = none;
  cancel_requested_at = none;
  awaiting = none;
  assignee = none;
  awaiting_deadline = none;
  settled_by = worker;
  updated_at = now;
}

-- The whole row of a run that a finish put back for another try.
abbrev pub retried_as : RunRow → Option String → ℕ → ℕ → RunRow
retried_as row worker wait now = record (put_down row worker now) {
  status = queued;
  attempt = row.attempt + 1;
  error_retries = row.error_retries + 1;
  queued_at = some now;
  available_at = some (now + wait);
}

-- The whole row of a run that a finish ended.
abbrev pub ended_as : RunRow → RunFinish → Option String → ℕ → RunRow
ended_as row ending worker now = record (put_down row worker now) {
  status = ending.status;
  output = ending.output;
  error = counted ending.error row.error_retries;
  available_at = none;
  checkpoint = none;
}

pub finish_row-cases :
    (c : Contracts) (draw now : ℕ) (ending : RunFinish) (worker : Option String) (row r : RunRow)
    → finish_row c draw ending worker now row ≡ ok (r, true)
    → (retried row ending ≡ true) × (retry_row c draw row worker now ≡ ok (r, true))
      ⊎ (retried row ending ≡ false) × (end_row c row ending worker now ≡ ok (r, true))
unfolding finish_row
finish_row-cases c draw now ending worker row r e = ground arith

pub retried_few :
    (row : RunRow) (ending : RunFinish)
    → retried row ending ≡ true
    → row.error_retries + 1 ≤ max_error_retries
unfolding retried
retried_few row ending e = ground arith

pub retry_row-made :
    (c : Contracts) (draw now : ℕ) (worker : Option String) (row r : RunRow)
    → row.error_retries + 1 ≤ max_error_retries
    → retry_row c draw row worker now ≡ ok (r, true)
    → r ≡ retried_as row worker (jittered (error_wait row.error_retries) draw) now
unfolding retry_row move moved requeue requeued
retry_row-made c draw now worker row r few e = ground (
  arith,
  backoff_few error_retry_base error_retry_cap row.error_retries (omega arith) (omega arith),
)

pub end_row-ended :
    (c : Contracts) (now : ℕ) (ending : RunFinish) (worker : Option String) (row r : RunRow)
    → final ending.status ≡ true
    → end_row c row ending worker now ≡ ok (r, true)
    → r ≡ ended_as row ending worker now
unfolding end_row move moved
end_row-ended c now ending worker row r ends e = ground arith
