-- ===== src/Run/Invariant/Store.antt =====
-- Every request to the run store keeps the invariant of every row.
use agent_runs.Base.{
  ℕ, String, ◌≡◌, Bool, true, false, Option, none, some, arith, All, str_eq, if◌then◌else◌,
  raise_if, ok, >>=-eq-ok, not, unprocessable, opt_eq,
}
use agent_runs.Answering.{KeyInfo}
use agent_runs.Run.Status.{final, Follows}
use agent_runs.Run.Rows.{
  Json, Interrupt, Resolution, RunRow, RunFinish, Lease, Db, Contracts, bounded_checkpoint,
}
use agent_runs.Run.Moves.{fence}
use agent_runs.Run.Store.{RunRecord, locked, put_run, answer_with, change_run}
use agent_runs.Run.Pause.{pause_row, pause}
use agent_runs.Run.Resume.{resume_row, answered_by, keep_answer, resume}
use agent_runs.Run.Ending
use agent_runs.Run.Ending.{cancel_row, finish_row, finish}
use agent_runs.Run.Leasing.{heartbeat_row, heartbeat, release_row, release}
use agent_runs.Run.Keeps.{change_run-All, locked_found, locked-All, put_run-All}
use agent_runs.Run.Invariant.{IsSound}
use agent_runs.Run.Invariant.Verbs.{
  pause_row-IsSound, resume_row-IsSound, cancel_row-IsSound, finish_row-IsSound,
  heartbeat_row-IsSound, release_row-IsSound,
}

abbrev pub AllSound : Db → Type 0
AllSound db = All IsSound db.runs

keep_answer-runs :
    (c : Contracts) (tenant : String) (row : RunRow) (resolution : Resolution) (taken : Bool)
    (now : ℕ) (db : Db) {db' : Db}
    → keep_answer c tenant row resolution taken now db ≡ ok db'
    → db'.runs ≡ db.runs
unfolding keep_answer
keep_answer-runs c tenant row resolution true now db e = ground arith
keep_answer-runs c tenant row resolution false now db e = ground arith

-- The row `resume` works on, and what it comes to.
resume_parts :
    (c : Contracts) (now : ℕ) (db : Db) (tenant run : String) (resolution : Resolution)
    (answerer : KeyInfo) {answer : RunRecord × Bool} {db' : Db}
    → resume c tenant run resolution answerer now db ≡ ok (answer, db')
    → (row : RunRow) × (r : RunRow) × (b : Bool) × (locked db tenant run none ≡ ok row)
      × (resume_row c row resolution answerer (answered_by c tenant resolution db) now ≡ ok (r, b))
      × (db'.runs ≡ (if b then put_run r db.runs else db.runs))
unfolding resume answer_with
resume_parts c now db tenant run resolution answerer {answer} {db'} e =
    let (u, asked, e1) =
      >>=-eq-ok (raise_if (not (str_eq resolution.run_id run)) unprocessable) _ e in
    let (row, got, e2) = >>=-eq-ok (locked db tenant run none) _ e1 in
    let (rb, made, e3) =
      >>=-eq-ok (resume_row c row resolution answerer (answered_by c tenant resolution db) now) _
        e2 in
    let (kept, keeps, e4) = >>=-eq-ok (keep_answer c tenant row resolution rb.1 now db) _ e3 in
    (
      row,
      rb.0,
      rb.1,
      got,
      made,
      ground (arith, keep_answer-runs c tenant row resolution rb.1 now db keeps),
    )

fence_owner :
    (row : RunRow) (worker : String)
    → fence row (some worker) ≡ ok tt
    → opt_eq row.lease_owner (some worker) ≡ true
unfolding fence
fence_owner row worker f = ground arith

heartbeat_parts :
    (max_run : Option ℕ) (now : ℕ) (db : Db) (tenant run worker : String) (lease_seconds : ℕ)
    (checkpoint : Option Json) {answer : Lease} {db' : Db}
    → heartbeat max_run tenant run worker lease_seconds checkpoint now db ≡ ok (answer, db')
    → (row : RunRow) × (r : RunRow) × (held : Lease) × (kept : Option Json) × (locked db tenant run
          (some worker)
        ≡ ok row)
      × (heartbeat_row max_run row worker lease_seconds kept now ≡ ok (r, held))
      × (db'.runs ≡ put_run r db.runs)
unfolding heartbeat
heartbeat_parts max_run now db tenant run worker lease_seconds checkpoint {answer} {db'} e =
    let (kept, small, e1) = >>=-eq-ok (bounded_checkpoint checkpoint) _ e in
    let (row, got, e2) = >>=-eq-ok (locked db tenant run (some worker)) _ e1 in
    let (rh, made, e3) = >>=-eq-ok (heartbeat_row max_run row worker lease_seconds kept now) _ e2 in
    (row, rh.0, rh.1, kept, got, made, ground arith)

module _ (c : Contracts) (law : Follows c.can_become) (now : ℕ) (db : Db) (v : AllSound db) where
  pub pause-AllSound :
      (tenant run : String) (interrupt : Interrupt) (checkpoint : Option Json)
      (worker : Option String) {answer : RunRecord × Bool} {db' : Db}
      → pause c tenant run interrupt checkpoint worker now db ≡ ok (answer, db')
      → AllSound db'
  unfolding pause
  pause-AllSound tenant run interrupt checkpoint worker {answer} {db'} e =
      let inner : change_run db tenant run now (pause_row c interrupt checkpoint worker now)
          ≡ ok (answer, db') =
        ground arith in
      change_run-All IsSound db tenant run now (pause_row c interrupt checkpoint worker now)
        (λ row r b s made. pause_row-IsSound c law row s now interrupt checkpoint worker made) v
        inner

  pub cancel-AllSound :
      (tenant run : String) (reason : Option String) (canceller : KeyInfo)
      {answer : RunRecord × Bool} {db' : Db}
      → Ending.cancel c tenant run reason canceller now db ≡ ok (answer, db')
      → AllSound db'
  unfolding Ending.cancel
  cancel-AllSound tenant run reason canceller e =
      change_run-All IsSound db tenant run now (cancel_row c canceller reason now)
        (λ row r b s made. cancel_row-IsSound c law row s now canceller reason made) v e

  pub finish-AllSound :
      (draw : ℕ) (tenant run : String) (ending : RunFinish) (worker : Option String)
      {answer : RunRecord × Bool} {db' : Db}
      → finish c draw tenant run ending worker now db ≡ ok (answer, db')
      → AllSound db'
  unfolding finish
  finish-AllSound draw tenant run ending worker {answer} {db'} e =
      let ends : final ending.status ≡ true = ground arith in
      let inner : change_run db tenant run now (finish_row c draw ending worker now)
          ≡ ok (answer, db') =
        ground arith in
      change_run-All IsSound db tenant run now (finish_row c draw ending worker now)
        (λ row r b s made. finish_row-IsSound c law row s now draw ending worker ends made) v inner

  pub release-AllSound :
      (tenant run worker : String) (checkpoint : Option Json) {answer : RunRecord × Bool} {db' : Db}
      → release c tenant run worker checkpoint now db ≡ ok (answer, db')
      → AllSound db'
  unfolding release
  release-AllSound tenant run worker checkpoint {answer} {db'} e =
      let inner : change_run db tenant run now (release_row c worker checkpoint now)
          ≡ ok (answer, db') =
        ground arith in
      change_run-All IsSound db tenant run now (release_row c worker checkpoint now)
        (λ row r b s made. release_row-IsSound c law row s now worker checkpoint made) v inner

  pub resume-AllSound :
      (tenant run : String) (resolution : Resolution) (answerer : KeyInfo)
      {answer : RunRecord × Bool} {db' : Db}
      → resume c tenant run resolution answerer now db ≡ ok (answer, db')
      → AllSound db'
  resume-AllSound tenant run resolution answerer e =
      let (row, r, b, got, made, runs) = resume_parts c now db tenant run resolution answerer e in
      rw runs (
        written b r (
          resume_row-IsSound c law row (locked-All IsSound db tenant run none v got) now resolution
            answerer _ made))
    where
      written :
          (b : Bool) (r : RunRow)
          → IsSound r
          → All IsSound (if b then put_run r db.runs else db.runs)
      written true r p = put_run-All IsSound r db.runs p v
      written false r p = v

  pub heartbeat-AllSound :
      (max_run : Option ℕ) (tenant run worker : String) (lease_seconds : ℕ)
      (checkpoint : Option Json) {answer : Lease} {db' : Db}
      → heartbeat max_run tenant run worker lease_seconds checkpoint now db ≡ ok (answer, db')
      → AllSound db'
  heartbeat-AllSound max_run tenant run worker lease_seconds checkpoint e =
      let (row, r, held, kept, got, made, runs) =
        heartbeat_parts max_run now db tenant run worker lease_seconds checkpoint e in
      rw runs (
        put_run-All IsSound r db.runs
          (heartbeat_row-IsSound c law row (locked-All IsSound db tenant run (some worker) v got)
            now max_run worker lease_seconds kept
            (fence_owner row worker (locked_found db tenant run (some worker) got).1) made)
          v)
