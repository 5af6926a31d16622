-- ===== src/Tests/Outcomes.antt =====
-- How one finish, one cancel, one lapse and one purge come out.
use mathlib.Core.List.{Memᴰ}
use agent_runs.Base.{
  ◌+◌, ◌-◌, ◌≤◌, ◌≡◌, ◌≢◌, ◌⊎◌, Bool, true, false, ◌&&◌, none, some, [], ◌∷◌, Result, ok, err, refl,
  arith, is_some, ltb, if◌then◌else◌,
}
use agent_runs.Retry.{backoff, jittered}
use agent_runs.Answering.{administers, require_may_answer, require_may_cancel}
use agent_runs.Run.Status.{running, paused, error, cancelled, status_eq}
use agent_runs.Run.Rows.{RunRow, lapsed_times}
use agent_runs.Run.Moves.{
  worked, moved, move, fence, settled, requeue, retried, cancelled_instead, limit_of,
  max_error_retries, max_lease_lapses,
}
use agent_runs.Run.Pause.{pause_row}
use agent_runs.Run.Resume.{resume_row}
use agent_runs.Run.Ending.{
  stop_row, already_cancelled, cancel_row, retry_row, finished_before, finish_row,
}
use agent_runs.Run.Leasing.{heartbeat_row, release_row}
use agent_runs.Run.Queue.{claimable}
use agent_runs.Run.Sweeps.{
  own_error, lapse_again, lapsed_row, past_its_deadline, is_overworked, has_lapsed, is_overdue,
}
use agent_runs.Run.Retention.{purge_ended}
use agent_runs.Run.Outcomes.{
  finish_row-outcome, cancel_row-outcome, lapsed_row-outcome, cancel_wins, worked-moved,
  is_overworked-worked,
}
use agent_runs.Run.Outcomes.Rows.{error_wait, lapse_wait, IsRetry, retried_as, ended_as}
use agent_runs.Run.Purges.{IsPurged, purge_ended-keeps}
use agent_runs.Run.Invariant.{IsSound}
use agent_runs.Run.Ended.{after, ended_stays}
use agent_runs.Tests.Samples.{
  contracts, lifecycle-Follows, question, reply, failed, admin, queued_row, held_row, stopping_row,
  ended_row, only, limits, ask,
}

-- The row a change leaves.
abbrev left_by : Result (RunRow × Bool) → RunRow
left_by (ok (r, changed)) = r
left_by (err e) = queued_row

abbrev left_alone : Result RunRow → RunRow
left_alone (ok r) = r
left_alone (err e) = queued_row

abbrev failed_row : RunRow
failed_row = left_by (finish_row contracts 7 failed (some "w") 10 held_row)

failed_ok : finish_row contracts 7 failed (some "w") 10 held_row ≡ ok (failed_row, true)
unfolding finish_row finished_before settled fence retried retry_row backoff requeue move
failed_ok = refl

finish_row-outcome_example :
    (retried held_row failed ≡ true)
      × (failed_row.error_retries ≤ max_error_retries)
      × (failed_row
          ≡ retried_as held_row (some "w") (jittered (error_wait held_row.error_retries) 7) 10)
    ⊎ (retried held_row failed ≡ false) × (failed_row ≡ ended_as held_row failed (some "w") 10)
finish_row-outcome_example =
    finish_row-outcome contracts 7 10 failed (some "w") held_row failed_row refl failed_ok

abbrev asked_row : RunRow
asked_row = left_by (cancel_row contracts admin none 10 held_row)

asked_ok : cancel_row contracts admin none 10 held_row ≡ ok (asked_row, true)
unfolding cancel_row require_may_cancel require_may_answer administers already_cancelled stop_row
asked_ok = refl

cancel_row-outcome_example :
    (asked_row.cancel_reason ≡ none)
    × (asked_row.cancelled_by ≡ some admin.principal)
    × ((held_row.status ≡ running)
          × (is_some held_row.lease_owner ≡ true)
          × (asked_row.status ≡ running)
          × (asked_row.lease_owner ≡ held_row.lease_owner)
          × (asked_row.cancel_requested_at ≡ some 10)
        ⊎ (status_eq held_row.status running && is_some held_row.lease_owner ≡ false)
          × (asked_row.status ≡ cancelled)
          × (asked_row.lease_owner ≡ none)
          × (asked_row.awaiting ≡ none)
          × (asked_row.checkpoint ≡ none))
cancel_row-outcome_example = cancel_row-outcome contracts admin none 10 held_row asked_row asked_ok

-- The row on its fifth lapse.
abbrev worn_row : RunRow
worn_row = record held_row { lease_lapses = 4; attempt = 5 }

abbrev dropped_row : RunRow
dropped_row = left_alone (lapsed_row contracts (λ run. 3) 100 worn_row)

dropped_ok : lapsed_row contracts (λ run. 3) 100 worn_row ≡ ok dropped_row
unfolding lapsed_row cancelled_instead lapse_again move
dropped_ok = refl

lapsed_row-outcome_example :
    (is_some worn_row.cancel_requested_at ≡ true)
      × (dropped_row.status ≡ cancelled)
      × (dropped_row.lease_lapses ≡ worn_row.lease_lapses)
    ⊎ (is_some worn_row.cancel_requested_at ≡ false)
      × (worn_row.lease_lapses + 1 ≡ max_lease_lapses)
      × (dropped_row.status ≡ error)
      × (dropped_row.error
          ≡ some (
              own_error "lease_expired"
                (lapsed_times max_lease_lapses)
                contracts.timeout_retryable))
      × (dropped_row.lease_lapses ≡ max_lease_lapses)
    ⊎ (is_some worn_row.cancel_requested_at ≡ false)
      × (worn_row.lease_lapses + 1 ≢ max_lease_lapses)
      × IsRetry worn_row (jittered (lapse_wait worn_row.lease_lapses) 3) 100 dropped_row
      × (dropped_row.lease_lapses ≡ worn_row.lease_lapses + 1)
lapsed_row-outcome_example =
    lapsed_row-outcome contracts (λ run. 3) 100 worn_row dropped_row (omega arith) dropped_ok

cancel_wins_example :
    (stopped : RunRow) × (released : RunRow) × (lapsed : RunRow) × (finished : RunRow) × (pause_row
        contracts question none
        (some "w")
        10
        stopping_row
      ≡ ok (stopped, true))
    × (stopped.status ≡ cancelled)
    × (stopped.attempt ≡ stopping_row.attempt)
    × (release_row contracts "w" none 10 stopping_row ≡ ok (released, true))
    × (released.status ≡ cancelled)
    × (released.attempt ≡ stopping_row.attempt)
    × (lapsed_row contracts (λ run. 3) 10 stopping_row ≡ ok lapsed)
    × (lapsed.status ≡ cancelled)
    × (lapsed.attempt ≡ stopping_row.attempt)
    × (finish_row contracts 7 failed (some "w") 10 stopping_row ≡ ok (finished, true))
    × (finished.status ≡ failed.status)
    × (finished.attempt ≡ stopping_row.attempt)
cancel_wins_example =
    cancel_wins contracts 10 7 (λ run. 3) stopping_row "w" question none failed lifecycle-Follows
      refl refl refl refl

worked-moved_example :
    worked (moved held_row paused 10) 30
    ≡ (if status_eq paused running then worked held_row 10 + (30 - 10) else worked held_row 10)
worked-moved_example = worked-moved held_row paused 10 30

is_overworked-worked_example :
    is_overworked (some 1000) 2000 held_row ≡ ltb 1000 (worked held_row 2000)
unfolding limit_of
is_overworked-worked_example =
    is_overworked-worked (some 1000) 2000 2 1000 held_row refl refl (omega arith) refl

ended_row-IsSound : IsSound ended_row
ended_row-IsSound = ground arith

ended_stays_example :
    (after ended_row (pause_row contracts question none none 10 ended_row) ≡ ended_row)
    × (after ended_row (release_row contracts "w" none 10 ended_row) ≡ ended_row)
    × (after ended_row (cancel_row contracts admin none 10 ended_row) ≡ ended_row)
    × (after ended_row (finish_row contracts 7 failed none 10 ended_row) ≡ ended_row)
    × (after ended_row (resume_row contracts ended_row reply admin true 10) ≡ ended_row)
    × (after ended_row (heartbeat_row limits.max_run_seconds ended_row "w" 60 none 10) ≡ ended_row)
    × (claimable limits none ask 10 (ended_row ∷ []) ended_row ≡ false)
    × (past_its_deadline 10 ended_row ≡ false)
    × (is_overworked limits.max_run_seconds 10 ended_row ≡ false)
    × (has_lapsed 10 ended_row ≡ false)
    × (is_overdue 10 ended_row ≡ false)
ended_stays_example =
    ended_stays contracts ended_row 10 7 60 question none none "w" none admin failed reply true
      limits none ask (ended_row ∷ []) lifecycle-Follows ended_row-IsSound refl

purge_ended-keeps_example :
    (Memᴰ ended_row (purge_ended (λ r. true) 100 5 (only ended_row)).1.runs
      ⊎ IsPurged (only ended_row) 100 "r1")
    × ((purge_ended (λ r. true) 100 5 (only ended_row)).0 ≤ 5)
purge_ended-keeps_example =
    purge_ended-keeps (λ r. true) 100 5 (only ended_row) ended_row (Memᴰ.head refl)
