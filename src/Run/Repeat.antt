-- ===== src/Run/Repeat.antt =====
-- A request made twice: the second one answers with the run as it is and writes nothing.
pub mod Verbs
pub mod Answer
pub mod Start
use agent_runs.Base.{
  find_first-passes, ℕ, String, ◌≡◌, Bool, true, false, ◌&&◌, Option, none, some, List, [], ◌∷◌,
  arith, str_eq, Bool-cases, inl, inr, find_first, eq_iff, opt_eq_iff, Result, ok, ◌⊎◌, not,
  raise_if, unprocessable, if◌then◌else◌, >>=-eq-ok, refl,
}
use agent_runs.Answers.{schema_problem}
use agent_runs.Answering.{KeyInfo, may_act_for, answering, require_may_answer, require_may_cancel}
use agent_runs.Run.Status.{final, queued, running, paused, error, cancelled, status_eq, Follows}
use agent_runs.Run.Rows.{Json, Interrupt, RunRow, RunFinish, Db, Contracts, bounded_checkpoint}
use agent_runs.Run.Moves.{
  fence, settled, move, moved, requeue, requeued, retried, cancelled_instead,
}
use agent_runs.Run.Store.{
  RunRecord, record_of, found, locked, put_run, answer_with, ended, change_run, is_run,
}
use agent_runs.Run.Pause.{asked_on, paused_or_cancelled, pause_row, pause}
use agent_runs.Run.Ending.{
  finished_before, retry_row, end_row, finish_row, finish, stop_row, already_cancelled, cancel_row,
}
use agent_runs.Run.Ending
use agent_runs.Run.Leasing.{released_or_cancelled, release_row, release}
use agent_runs.Run.Keeps.{change_run_parts, locked_found}

-- The row written back is the one found again.
pub find_first-put_run :
    (tenant run : String) (r : RunRow) (rows : List RunRow) {row : RunRow}
    → is_run tenant run r ≡ true
    → find_first (is_run tenant run) rows ≡ some row
    → find_first (is_run tenant run) (put_run r rows) ≡ some r
unfolding put_run
find_first-put_run tenant run r [] {row} own there = absurd (ground arith)
find_first-put_run tenant run r (x ∷ xs) {row} own there =
    elim (Bool-cases (str_eq x.run_id r.run_id)) [
      | inl t ↦ rw (t, own)
      | inr f ↦
          let other : is_run tenant run x ≡ false =
            ground (arith, eq_iff x.run_id run, eq_iff r.run_id run, eq_iff x.run_id r.run_id) in
          let later : find_first (is_run tenant run) xs ≡ some row = ground arith in
          rw f (rw other (find_first-put_run tenant run r xs own later))
    ]

pub locked_again :
    (db : Db) (tenant run : String) {row : RunRow}
    → find_first (is_run tenant run) db.runs ≡ some row
    → locked db tenant run none ≡ ok row
unfolding locked found fence
locked_again db tenant run {row} there = ground arith

-- What a changed row answers, and the tables then.
changed_parts :
    (db : Db) (tenant run : String) (now : ℕ) (change : RunRow → Result (RunRow × Bool))
    {answer : RunRecord} {db' : Db}
    → change_run db tenant run now change ≡ ok ((answer, true), db')
    → (row : RunRow) × (r : RunRow) × (find_first (is_run tenant run) db.runs ≡ some row)
      × (change row ≡ ok (r, true))
      × (db'.runs ≡ put_run r db.runs)
      × (answer ≡ record_of r now)
unfolding change_run ended
changed_parts db tenant run now change {answer} {db'} e =
    let (row, got, rest) = >>=-eq-ok (locked db tenant run none) _ e in
    let (rb, made, done) = >>=-eq-ok (change row) _ rest in
    let written : rb.1 ≡ true = ground arith in
    (row, rb.0, (locked_found db tenant run none got).0, cc, ground arith, ground arith)

unchanged :
    (db : Db) (tenant run : String) (now : ℕ) (change : RunRow → Result (RunRow × Bool))
    {r : RunRow}
    → find_first (is_run tenant run) db.runs ≡ some r
    → change r ≡ ok (r, false)
    → change_run db tenant run now change ≡ ok ((record_of r now, false), db)
unfolding change_run
unchanged db tenant run now change {r} there same = rw (locked_again db tenant run there, same)

-- The answer of a repeat is the first one's, except for the working time, which goes on.
abbrev pub IsRepeat : Db → RunRecord → Result ((RunRecord × Bool) × Db) → Type 0
IsRepeat db first again =
    (worked : ℕ) × (again ≡ ok ((record first { worked_seconds = worked }, false), db))

pub change_run-IsRepeat :
    (db : Db) (tenant run : String) (now later : ℕ) (change again : RunRow → Result (RunRow × Bool))
    {answer : RunRecord} {db' : Db}
    → ((row r : RunRow)
        → change row ≡ ok (r, true)
        → answer ≡ record_of r now
        → (r.start ≡ row.start) × (again r ≡ ok (r, false)))
    → change_run db tenant run now change ≡ ok ((answer, true), db')
    → IsRepeat db' answer (change_run db' tenant run later again)
unfolding record_of
change_run-IsRepeat db tenant run now later change again {answer} {db'} repeats e =
    let (row, r, there, made, runs, said) = changed_parts db tenant run now change e in
    let (own, same) = repeats row r made said in
    let passes : is_run tenant run row ≡ true =
      find_first-passes (is_run tenant run) db.runs there in
    let passes' : is_run tenant run r ≡ true = ground arith in
    let there' : find_first (is_run tenant run) db'.runs ≡ some r =
      rw runs (find_first-put_run tenant run r db.runs passes' there) in
    ((record_of r later).worked_seconds, rw said (unchanged db' tenant run later again there' same))
