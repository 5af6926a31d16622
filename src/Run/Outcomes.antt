-- ===== src/Run/Outcomes.antt =====
-- How a finish, a cancel, a lapse and the clock of working time come out.
pub mod Rows
mod Stops
use agent_runs.Base.{
  ℕ, ◌+◌, ◌-◌, ◌*◌, ◌^◌, min, ◌≤◌, String, ◌≡◌, ◌⊎◌, ◌≢◌, opt_eq_iff, true, false, ◌&&◌, Option,
  none, some, arith, is_some, ltb, ok, if◌then◌else◌, refl, inl, inr,
}
use agent_runs.Retry.{jittered}
use agent_runs.Retry.Backoff.{backoff_few}
use agent_runs.Answering.{KeyInfo}
use agent_runs.Run.Status.{RunStatus, queued, running, error, cancelled, final, status_eq, Follows}
use agent_runs.Run.Rows.{Json, Interrupt, RunRow, RunFinish, Contracts, lapsed_times}
use agent_runs.Run.Moves.{
  max_error_retries, max_lease_lapses, error_retry_base, error_retry_cap, lapse_retry_base,
  lapse_retry_cap, worked, moved, move, fence, settled, requeued, requeue, retried,
  cancelled_instead, counted, limit_of,
}
use agent_runs.Run.Pause.{paused_or_cancelled, pause_row}
use agent_runs.Run.Ending.{retry_row, end_row, finished_before, finish_row, stop_row, cancel_row}
use agent_runs.Run.Leasing.{released_or_cancelled, release_row}
use agent_runs.Run.Sweeps.{own_error, is_overworked, lapse_again, lapsed_row}
use agent_runs.Run.Outcomes.Rows.{
  error_wait, lapse_wait, IsRetry, put_down, retried_as, ended_as, finish_row-cases, retried_few,
  retry_row-made, end_row-ended,
}
use agent_runs.Run.Outcomes.Stops.{pause-stops, release-stops, lapse-stops, finish-stops}

-- A finish that changes a run either puts it back on the queue or ends it, as `retried` says. Put
-- back, it is QUEUED now for one more attempt, counts one more retry, at most three of them, and waits
-- the jittered backoff of that retry. Ended, it has the status and output asked for, the error with
-- its retries counted, and no checkpoint. Either way its lease, a cancel asked for and what it waited
-- on are cleared, its clock stands, the worker is noted as who settled it at that instant, and every
-- other column is as it was.
pub finish_row-outcome :
    (c : Contracts) (draw now : ℕ) (ending : RunFinish) (worker : Option String) (row r : RunRow)
    → final ending.status ≡ true
    → finish_row c draw ending worker now row ≡ ok (r, true)
    → (retried row ending ≡ true)
        × (r.error_retries ≤ max_error_retries)
        × (r ≡ retried_as row worker (jittered (error_wait row.error_retries) draw) now)
      ⊎ (retried row ending ≡ false) × (r ≡ ended_as row ending worker now)
finish_row-outcome c draw now ending worker row r ends e =
    elim (finish_row-cases c draw now ending worker row r e) [
      | inl (was, again) ↦
          let few = retried_few row ending was in
          let made = retry_row-made c draw now worker row r few again in
          inl (was, rw made few, made)
      | inr (stays, stands) ↦ inr (stays, end_row-ended c now ending worker row r ends stands)
    ]

-- A cancel that changes a run: one that a worker holds keeps running under its lease with the
-- request noted; any other is CANCELLED, with no lease, interrupt or checkpoint left. Either way the
-- run has the reason and who asked.
pub cancel_row-outcome :
    (c : Contracts) (canceller : KeyInfo) (reason : Option String) (now : ℕ) (row r : RunRow)
    → cancel_row c canceller reason now row ≡ ok (r, true)
    → (r.cancel_reason ≡ reason)
      × (r.cancelled_by ≡ some canceller.principal)
      × ((row.status ≡ running)
            × (is_some row.lease_owner ≡ true)
            × (r.status ≡ running)
            × (r.lease_owner ≡ row.lease_owner)
            × (r.cancel_requested_at ≡ some now)
          ⊎ (status_eq row.status running && is_some row.lease_owner ≡ false)
            × (r.status ≡ cancelled)
            × (r.lease_owner ≡ none)
            × (r.awaiting ≡ none)
            × (r.checkpoint ≡ none))
unfolding cancel_row stop_row move moved
cancel_row-outcome c canceller reason now row r e = ground arith

-- A run lapsing for the fifth time, with no cancel asked for, ends with the error `lease_expired`;
-- before that it goes back on the queue, with the wait of that lapse. Where a cancel was asked for it
-- ends CANCELLED, and the lapse is not counted.
pub lapsed_row-outcome :
    (c : Contracts) (draw : String → ℕ) (now : ℕ) (row r : RunRow)
    → row.lease_lapses + 1 ≤ max_lease_lapses
    → lapsed_row c draw now row ≡ ok r
    → (is_some row.cancel_requested_at ≡ true)
        × (r.status ≡ cancelled)
        × (r.lease_lapses ≡ row.lease_lapses)
      ⊎ (is_some row.cancel_requested_at ≡ false)
        × (row.lease_lapses + 1 ≡ max_lease_lapses)
        × (r.status ≡ error)
        × (r.error
            ≡ some (own_error "lease_expired" (lapsed_times max_lease_lapses) c.timeout_retryable))
        × (r.lease_lapses ≡ max_lease_lapses)
      ⊎ (is_some row.cancel_requested_at ≡ false)
        × (row.lease_lapses + 1 ≢ max_lease_lapses)
        × IsRetry row (jittered (lapse_wait row.lease_lapses) (draw row.run_id)) now r
        × (r.lease_lapses ≡ row.lease_lapses + 1)
unfolding lapsed_row cancelled_instead lapse_again move moved requeue requeued
lapsed_row-outcome c draw now row r few e = ground (
  arith,
  backoff_few lapse_retry_base lapse_retry_cap row.lease_lapses (omega arith) (omega arith),
)

-- A run asked to stop, under the documented lifecycle: what its worker does next ends it. A pause, a
-- release and the lapse of its lease leave it CANCELLED, and a finish, even with an error that may be
-- retried, ends it with the status it asks for; none of them counts a further attempt.
pub cancel_wins :
    (c : Contracts) (now draw : ℕ) (draws : String → ℕ) (row : RunRow) (worker : String)
    (interrupt : Interrupt) (checkpoint : Option Json) (ending : RunFinish)
    → Follows c.can_become
    → row.status ≡ running
    → row.lease_owner ≡ some worker
    → is_some row.cancel_requested_at ≡ true
    → final ending.status ≡ true
    → (stopped : RunRow) × (released : RunRow) × (lapsed : RunRow) × (finished : RunRow)
      × (pause_row c interrupt checkpoint (some worker) now row ≡ ok (stopped, true))
      × (stopped.status ≡ cancelled)
      × (stopped.attempt ≡ row.attempt)
      × (release_row c worker checkpoint now row ≡ ok (released, true))
      × (released.status ≡ cancelled)
      × (released.attempt ≡ row.attempt)
      × (lapsed_row c draws now row ≡ ok lapsed)
      × (lapsed.status ≡ cancelled)
      × (lapsed.attempt ≡ row.attempt)
      × (finish_row c draw ending (some worker) now row ≡ ok (finished, true))
      × (finished.status ≡ ending.status)
      × (finished.attempt ≡ row.attempt)
unfolding moved
cancel_wins c now draw draws row worker interrupt checkpoint ending law runs held asked ends =
    let (finished, made, status, again) =
      finish-stops c law row worker now runs held asked draw ending ends in
    (
      _,
      _,
      _,
      finished,
      pause-stops c law row worker now runs held asked interrupt checkpoint,
      refl,
      refl,
      release-stops c law row worker now runs held asked checkpoint,
      refl,
      refl,
      lapse-stops c law row worker now runs held asked draws,
      refl,
      refl,
      made,
      status,
      again,
    )

-- The clock of a run: it goes on only while the run is RUNNING. Across a move it keeps what was
-- worked, and from then on it adds the time since the move where the run runs, and nothing elsewhere.
pub worked-moved :
    (row : RunRow) (to : RunStatus) (now later : ℕ)
    → worked (moved row to now) later
      ≡ (if status_eq to running then worked row now + (later - now) else worked row now)
unfolding worked moved
worked-moved row to now later = ground arith

-- The overwork sweep takes a running run exactly when the working time its record shows is over its
-- limit, as long as its clock was not started in the future.
pub is_overworked-worked :
    (max_run : Option ℕ) (now since most : ℕ) (row : RunRow)
    → row.status ≡ running
    → row.running_since ≡ some since
    → since ≤ now
    → limit_of max_run row ≡ some most
    → is_overworked max_run now row ≡ ltb most (worked row now)
unfolding is_overworked worked
is_overworked-worked max_run now since most row runs clock past limit = ground arith
