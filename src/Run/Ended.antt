-- ===== src/Run/Ended.antt =====
-- An ended run is over: no operation changes it and nothing selects it.
use agent_runs.Base.{
  ℕ, String, ◌≡◌, Bool, true, false, Option, List, arith, Result, ok, err, conflict,
}
use agent_runs.Answering.{KeyInfo}
use agent_runs.Run.Status.{RunStatus, queued, paused, cancelled, final, Follows}
use agent_runs.Run.Rows.{Json, Interrupt, Resolution, RunRow, RunFinish, Contracts}
use agent_runs.Run.Moves.{move, requeue, retried, cancelled_instead}
use agent_runs.Run.Pause.{paused_or_cancelled, pause_row}
use agent_runs.Run.Resume.{resume_row}
use agent_runs.Run.Ending.{end_row, finish_row, stop_row, cancel_row}
use agent_runs.Run.Leasing.{released_or_cancelled, heartbeat_row, release_row}
use agent_runs.Run.Queue.{Limits, ClaimRequest, claimable}
use agent_runs.Run.Sweeps.{past_its_deadline, is_overworked, has_lapsed, is_overdue}
use agent_runs.Run.Invariant.{IsSound}

-- The row an operation leaves: it is rolled back where it is refused.
abbrev pub after : {B : Type 0} → RunRow → Result (RunRow × B) → RunRow
after row (ok (r, b)) = r
after row (err e) = row

module _ (c : Contracts) (law : Follows c.can_become) (row : RunRow)
    (over : final row.status ≡ true) (now : ℕ) where
  no_move : (to : RunStatus) → move c row to now ≡ err conflict
  unfolding move
  no_move to = ground (arith, law.ended_stays row.status to over)

  module _ (v : IsSound row) where
    pause-after :
        (interrupt : Interrupt) (checkpoint : Option Json) (worker : Option String)
        → after row (pause_row c interrupt checkpoint worker now row) ≡ row
    unfolding pause_row paused_or_cancelled cancelled_instead
    pause-after interrupt checkpoint worker = ground (arith, no_move paused, no_move cancelled)

    release-after :
        (worker : String) (checkpoint : Option Json)
        → after row (release_row c worker checkpoint now row) ≡ row
    unfolding release_row released_or_cancelled cancelled_instead requeue
    release-after worker checkpoint = ground (arith, no_move queued, no_move cancelled)

    cancel-after :
        (canceller : KeyInfo) (reason : Option String)
        → after row (cancel_row c canceller reason now row) ≡ row
    unfolding cancel_row stop_row
    cancel-after canceller reason = ground (arith, no_move cancelled)

    finish-after :
        (draw : ℕ) (ending : RunFinish) (worker : Option String)
        → after row (finish_row c draw ending worker now row) ≡ row
    unfolding finish_row end_row retried
    finish-after draw ending worker = ground (arith, no_move ending.status)

    resume-after :
        (resolution : Resolution) (answerer : KeyInfo) (repeated : Bool)
        → after row (resume_row c row resolution answerer repeated now) ≡ row
    unfolding resume_row
    resume-after resolution answerer repeated = ground (arith, v.waiting)

    heartbeat-after :
        (max_run : Option ℕ) (worker : String) (lease_seconds : ℕ) (checkpoint : Option Json)
        → after row (heartbeat_row max_run row worker lease_seconds checkpoint now) ≡ row
    unfolding heartbeat_row
    heartbeat-after max_run worker lease_seconds checkpoint = ground arith

-- Under the documented lifecycle, a sound row that ended stays as it is: a pause or a finish, by a
-- worker or without one, a release, a cancel, an answer or a heartbeat leave it alone, a claim never
-- picks it, and none of the four sweeps selects it.
pub ended_stays :
    (c : Contracts) (row : RunRow) (now draw lease_seconds : ℕ) (interrupt : Interrupt)
    (checkpoint : Option Json) (actor : Option String) (worker : String) (reason : Option String)
    (key : KeyInfo) (ending : RunFinish) (resolution : Resolution) (repeated : Bool)
    (limits : Limits) (tenant : Option String) (request : ClaimRequest) (rows : List RunRow)
    → Follows c.can_become
    → IsSound row
    → final row.status ≡ true
    → (after row (pause_row c interrupt checkpoint actor now row) ≡ row)
      × (after row (release_row c worker checkpoint now row) ≡ row)
      × (after row (cancel_row c key reason now row) ≡ row)
      × (after row (finish_row c draw ending actor now row) ≡ row)
      × (after row (resume_row c row resolution key repeated now) ≡ row)
      × (after row (heartbeat_row limits.max_run_seconds row worker lease_seconds checkpoint now)
          ≡ row)
      × (claimable limits tenant request now rows row ≡ false)
      × (past_its_deadline now row ≡ false)
      × (is_overworked limits.max_run_seconds now row ≡ false)
      × (has_lapsed now row ≡ false)
      × (is_overdue now row ≡ false)
unfolding claimable past_its_deadline is_overworked has_lapsed is_overdue
ended_stays c row now draw lease_seconds interrupt checkpoint actor worker reason key ending
      resolution repeated limits tenant request rows law v over =
    (
      pause-after c law row over now v interrupt checkpoint actor,
      release-after c law row over now v worker checkpoint,
      cancel-after c law row over now v key reason,
      finish-after c law row over now v draw ending actor,
      resume-after c law row over now v resolution key repeated,
      heartbeat-after c law row over now v limits.max_run_seconds worker lease_seconds checkpoint,
      ground arith,
      ground arith,
      ground arith,
      ground arith,
      ground arith,
    )
