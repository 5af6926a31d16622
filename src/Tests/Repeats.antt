-- ===== src/Tests/Repeats.antt =====
-- Requests sent twice, and a worker that lost its lease.
use agent_runs.Base.{
  ◌≡◌, Bool, true, none, some, ◌∷◌, Result, ok, err, lease_lost, refl, find_first, str_eq,
}
use agent_runs.Answers.{
  schema_problem, choice_problem, fit_problem, decision_problem, answer_problem,
}
use agent_runs.Answering.{administers, require_may_answer, require_may_cancel}
use agent_runs.Retry.{backoff}
use agent_runs.Run.Status.{queued, paused}
use agent_runs.Run.Rows.{RunRow, Interrupt, Db, bounded_checkpoint}
use agent_runs.Run.Moves.{
  moved, move, fence, settled, requeued, requeue, retried, cancelled_instead,
}
use agent_runs.Run.Store.{RunRecord, record_of, found, locked, answer_with, change_run, is_run}
use agent_runs.Run.Pause.{asked_on, paused_or_cancelled, pause_row, pause}
use agent_runs.Run.Resume.{
  resolution_id, kept_answer, answered_by, continued, answer_row, resume_row, resolution_row,
  add_resolution, keep_answer, resume,
}
use agent_runs.Run.Ending
use agent_runs.Run.Ending.{
  stop_row, already_cancelled, cancel_row, retry_row, end_row, finished_before, finish_row,
  is_an_ending, finish,
}
use agent_runs.Run.Leasing.{heartbeat, released_or_cancelled, release_row, release}
use agent_runs.Run.Starts.{taken, start_run}
use agent_runs.Run.Service.{empty_db}
use agent_runs.Run.Fencing.{lost_lease}
use agent_runs.Run.Repeat.{IsRepeat}
use agent_runs.Run.Repeat.Verbs.{finish-finish, cancel-cancel, release-release, pause-pause}
use agent_runs.Run.Repeat.Answer.{resume-resume, resume-once}
use agent_runs.Run.Repeat.Start.{start_run-start_run}
use agent_runs.Tests.Samples.{
  contracts, first_start, question, reply, failed, succeeded, admin, held_row, paused_row, only,
  record_in, tables_in,
}

abbrev ended_once : Result ((RunRecord × Bool) × Db)
ended_once = finish contracts 7 "t" "r1" failed (some "w") 10 (only held_row)

ended_ok : ended_once ≡ ok ((record_in ended_once, true), tables_in ended_once)
unfolding finish change_run locked found fence finish_row finished_before settled retried retry_row
    backoff requeue move answer_with is_an_ending
ended_ok = refl

finish-finish_example :
    IsRepeat
      (tables_in ended_once)
      (record_in ended_once)
      (finish contracts 9 "t" "r1" failed (some "w") 12 (tables_in ended_once))
finish-finish_example =
    finish-finish contracts 10 12 7 9 "t" "r1" (some "w") failed (only held_row)
      (tables_in ended_once) (record_in ended_once) refl ended_ok

abbrev cancelled_once : Result ((RunRecord × Bool) × Db)
cancelled_once = Ending.cancel contracts "t" "r1" (some "late") admin 10 (only paused_row)

cancelled_ok : cancelled_once ≡ ok ((record_in cancelled_once, true), tables_in cancelled_once)
unfolding Ending.cancel change_run locked found fence cancel_row require_may_cancel
    require_may_answer administers already_cancelled stop_row move answer_with
cancelled_ok = refl

cancel-cancel_example :
    IsRepeat
      (tables_in cancelled_once)
      (record_in cancelled_once)
      (Ending.cancel contracts "t" "r1" (some "late") admin 12 (tables_in cancelled_once))
cancel-cancel_example =
    cancel-cancel contracts 10 12 "t" "r1" (some "late") admin (only paused_row)
      (tables_in cancelled_once) (record_in cancelled_once) cancelled_ok

abbrev released_once : Result ((RunRecord × Bool) × Db)
released_once = release contracts "t" "r1" "w" none 10 (only held_row)

released_ok : released_once ≡ ok ((record_in released_once, true), tables_in released_once)
unfolding release bounded_checkpoint change_run locked found fence release_row settled
    cancelled_instead released_or_cancelled requeue move answer_with
released_ok = refl

released_queued : (record_in released_once).status ≡ queued
unfolding release bounded_checkpoint change_run locked found fence release_row settled
    cancelled_instead released_or_cancelled requeue requeued move moved answer_with record_of
released_queued = refl

release-release_example :
    IsRepeat
      (tables_in released_once)
      (record_in released_once)
      (release contracts "t" "r1" "w" none 12 (tables_in released_once))
release-release_example =
    release-release contracts 10 12 "t" "r1" "w" none (only held_row) (tables_in released_once)
      (record_in released_once) released_queued released_ok

abbrev paused_once : Result ((RunRecord × Bool) × Db)
paused_once = pause contracts "t" "r1" question none (some "w") 10 (only held_row)

paused_ok : paused_once ≡ ok ((record_in paused_once, true), tables_in paused_once)
unfolding pause schema_problem bounded_checkpoint change_run locked found fence pause_row settled
    cancelled_instead paused_or_cancelled move answer_with
paused_ok = refl

paused_waits : (record_in paused_once).status ≡ paused
unfolding pause schema_problem bounded_checkpoint change_run locked found fence pause_row settled
    cancelled_instead paused_or_cancelled asked_on move moved answer_with record_of
paused_waits = refl

pause-pause_example :
    IsRepeat
      (tables_in paused_once)
      (record_in paused_once)
      (pause contracts "t" "r1" question none (some "w") 12 (tables_in paused_once))
pause-pause_example =
    pause-pause contracts 10 12 "t" "r1" question none (some "w") (only held_row)
      (tables_in paused_once) (record_in paused_once) paused_waits paused_ok

abbrev resumed_once : Result ((RunRecord × Bool) × Db)
resumed_once = resume contracts "t" "r1" reply admin 40 (only paused_row)

resumed_ok : resumed_once ≡ ok ((record_in resumed_once, true), tables_in resumed_once)
unfolding resume answered_by kept_answer locked found fence resume_row answer_row require_may_answer
    administers answer_problem decision_problem fit_problem choice_problem continued requeue move
    keep_answer add_resolution answer_with
resumed_ok = refl

resume-resume_example :
    IsRepeat
      (tables_in resumed_once)
      (record_in resumed_once)
      (resume contracts "t" "r1" reply admin 45 (tables_in resumed_once))
resume-resume_example =
    resume-resume contracts "t" "r1" reply admin 40 (only paused_row) 45 (tables_in resumed_once)
      (record_in resumed_once) resumed_ok

resume-once_example :
    (find_first
        (λ r. str_eq r.resolution_id (resolution_id contracts reply))
        (only paused_row).resolutions
      ≡ none)
    × (row : RunRow) × (asked : Interrupt) × (find_first (is_run "t" "r1") (only paused_row).runs
        ≡ some row)
    × (row.awaiting ≡ some asked)
    × ((tables_in resumed_once).resolutions
        ≡ resolution_row contracts "t" row asked reply 40 ∷ (only paused_row).resolutions)
resume-once_example =
    resume-once contracts "t" "r1" reply admin 40 (only paused_row) (tables_in resumed_once)
      (record_in resumed_once) resumed_ok

abbrev started_once : Result ((RunRecord × Bool) × Db)
started_once = start_run first_start true 1 true empty_db

started_ok : started_once ≡ ok ((record_in started_once, true), tables_in started_once)
unfolding start_run taken
started_ok = refl

start_run-start_run_example :
    IsRepeat
      (tables_in started_once)
      (record_in started_once)
      (start_run first_start true 9 true (tables_in started_once))
unfolding taken
start_run-start_run_example =
    start_run-start_run first_start true true 1 9 empty_db (tables_in started_once)
      (record_in started_once) refl started_ok

lost_lease_example :
    (finish contracts 7 "t" "r1" succeeded (some "other") 10 (only held_row) ≡ err lease_lost)
    × (pause contracts "t" "r1" question none (some "other") 10 (only held_row) ≡ err lease_lost)
    × (heartbeat (some 1000) "t" "r1" "other" 60 none 10 (only held_row) ≡ err lease_lost)
    × (release contracts "t" "r1" "other" none 10 (only held_row) ≡ err lease_lost)
unfolding found schema_problem bounded_checkpoint
lost_lease_example =
    lost_lease contracts (some 1000) 10 7 60 "t" "r1" "other" (only held_row) held_row succeeded
      question none none refl refl refl refl refl refl refl
