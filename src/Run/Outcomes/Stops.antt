-- ===== src/Run/Outcomes/Stops.antt =====
-- What a worker's next step makes of a run that was asked to stop.
use agent_runs.Base.{ℕ, String, ◌≡◌, opt_eq_iff, true, Option, some, arith, is_some, ok, refl}
use agent_runs.Run.Status.{running, cancelled, final, Follows}
use agent_runs.Run.Rows.{Json, Interrupt, RunRow, RunFinish, Contracts}
use agent_runs.Run.Moves.{moved, move, fence, settled, retried, cancelled_instead, counted}
use agent_runs.Run.Pause.{paused_or_cancelled, pause_row}
use agent_runs.Run.Ending.{end_row, finished_before, finish_row}
use agent_runs.Run.Leasing.{released_or_cancelled, release_row}
use agent_runs.Run.Sweeps.{lapsed_row}

module _ (c : Contracts) (law : Follows c.can_become) (row : RunRow) (worker : String) (now : ℕ)
    (runs : row.status ≡ running) (held : row.lease_owner ≡ some worker)
    (asked : is_some row.cancel_requested_at ≡ true) where
  held_fence : fence row (some worker) ≡ ok tt
  unfolding fence
  held_fence = ground (arith, opt_eq_iff row.lease_owner (some worker))

  stopped_row : cancelled_instead c row now ≡ ok (some (moved row cancelled now))
  unfolding cancelled_instead move
  stopped_row = ground (arith, law.can_stop running)

  pub pause-stops :
      (interrupt : Interrupt) (checkpoint : Option Json)
      → pause_row c interrupt checkpoint (some worker) now row
        ≡ ok (record (moved row cancelled now) { settled_by = some worker }, true)
  unfolding pause_row settled paused_or_cancelled
  pause-stops interrupt checkpoint = ground (arith, held_fence, stopped_row)

  pub release-stops :
      (checkpoint : Option Json)
      → release_row c worker checkpoint now row
        ≡ ok (record (moved row cancelled now) { settled_by = some worker }, true)
  unfolding release_row settled released_or_cancelled
  release-stops checkpoint = ground (arith, held_fence, stopped_row)

  pub lapse-stops : (draws : String → ℕ) → lapsed_row c draws now row ≡ ok (moved row cancelled now)
  unfolding lapsed_row
  lapse-stops draws = ground (arith, stopped_row)

  end_row-made :
      (ending : RunFinish)
      → final ending.status ≡ true
      → (r : RunRow) × (end_row c row ending (some worker) now ≡ ok (r, true))
        × (r.status ≡ ending.status)
        × (r.attempt ≡ row.attempt)
  unfolding end_row move moved
  end_row-made ending ends =
      let may : c.can_become row.status ending.status ≡ true =
        rw runs (law.can_end ending.status ends) in
      (
        record (moved row ending.status now) {
          output = ending.output;
          error = counted ending.error row.error_retries;
          settled_by = some worker;
        },
        ground arith,
        refl,
        refl,
      )

  pub finish-stops :
      (draw : ℕ) (ending : RunFinish)
      → final ending.status ≡ true
      → (r : RunRow) × (finish_row c draw ending (some worker) now row ≡ ok (r, true))
        × (r.status ≡ ending.status)
        × (r.attempt ≡ row.attempt)
  unfolding finish_row finished_before settled retried
  finish-stops draw ending ends =
      let (r, made, status, again) = end_row-made ending ends in
      (r, ground (arith, held_fence, made), status, again)
