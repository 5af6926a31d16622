-- ===== src/Run/Repeat/Answer.antt =====
-- An answer given twice: `RunStore.resume` and the resolution it keeps.
use mathlib.Core.Path.{subst}
use agent_runs.Base.{
  find_first-passes, ℕ, String, ◌≡◌, Bool, true, false, not, none, some, List, [], ◌∷◌, arith,
  str_eq, Option-cases, inl, inr, find_first, eq_iff, opt_eq_iff, ok, >>=-eq-ok, refl, ◌∙◌,
  raise_if, unprocessable,
}
use agent_runs.Answering.{KeyInfo, require_may_answer}
use agent_runs.Answers.{answer_problem}
use agent_runs.Run.Rows.{Json, Value, plain, items, Interrupt, Resolution, RunRow, Db, Contracts}
use agent_runs.Run.Moves.{move, moved, requeue, requeued}
use agent_runs.Run.Store.{RunRecord, record_of, locked, put_run, answer_with, ended, is_run}
use agent_runs.Run.Resume.{
  items_eq, value_eq, resolution_eq, resolution_id, kept_answer, answered_by, continued, answer_row,
  resume_row, resolution_row, add_resolution, keep_answer, resume,
}
use agent_runs.Run.Repeat.{IsRepeat, find_first-put_run, locked_again}
use agent_runs.Run.Keeps.{locked_found}

items_eq_refl : (xs : List Json) → items_eq xs xs ≡ true
items_eq_refl [] = refl
items_eq_refl (x ∷ xs) = ground (arith, eq_iff x x, items_eq_refl xs)

value_eq_refl : (v : Value) → value_eq v v ≡ true
value_eq_refl (plain text) = ground (arith, eq_iff text text)
value_eq_refl (items xs) = items_eq_refl xs

resolution_eq_refl : (a : Resolution) → resolution_eq a a ≡ true
unfolding resolution_eq
resolution_eq_refl a = ground (
  arith,
  eq_iff a.interrupt_id a.interrupt_id,
  eq_iff a.run_id a.run_id,
  value_eq_refl a.answer,
  value_eq_refl a.payload,
  opt_eq_iff a.reviewer a.reviewer,
  opt_eq_iff a.remember a.remember,
  opt_eq_iff a.comment a.comment,
)

module _ (c : Contracts) (tenant run : String) (resolution : Resolution) (answerer : KeyInfo)
    (now : ℕ) (db : Db) where
  continued_start :
      (row : RunRow) {r : RunRow}
      → continued c row resolution.decision now ≡ ok r
      → (r.start ≡ row.start) × (r.awaiting ≡ none)
  unfolding continued move moved requeue requeued
  continued_start row e = ground arith

  -- An answer that was taken: the run waited on it, and waits on nothing now.
  taken_parts :
      (row r : RunRow) (repeated : Bool)
      → resume_row c row resolution answerer repeated now ≡ ok (r, true)
      → (asked : Interrupt) × (row.awaiting ≡ some asked)
        × (r.start ≡ row.start)
        × (r.awaiting ≡ none)
  unfolding resume_row answer_row
  taken_parts row r repeated e = elim (Option-cases row.awaiting) [
    | inl nothing ↦ absurd (ground arith)
    | inr (asked, waits) ↦
        let inner : answer_row c row asked resolution answerer now ≡ ok (r, true) = ground arith in
        let (u1, may, e1) =
          >>=-eq-ok (require_may_answer answerer asked.assignee resolution.reviewer) _ inner in
        let (u2, fits, e2) =
          >>=-eq-ok (raise_if (answer_problem c asked resolution) unprocessable) _ e1 in
        let (r', went, e3) =
          >>=-eq-ok
            (continued c (record row { last_resolution = some resolution }) resolution.decision now)
            _ e2 in
        let (own, waits_not) =
          continued_start (record row { last_resolution = some resolution }) went in
        (asked, waits, ground arith, ground arith)
  ]

  kept_parts :
      (row : RunRow) (asked : Interrupt) (db' : Db)
      → row.awaiting ≡ some asked
      → keep_answer c tenant row resolution true now db ≡ ok db'
      → (db'.runs ≡ db.runs)
        × (db'.resolutions ≡ resolution_row c tenant row asked resolution now ∷ db.resolutions)
  unfolding keep_answer add_resolution
  kept_parts row asked db' waits e = ground arith

  answered_again :
      (later : ℕ) (row : RunRow) (asked : Interrupt) (db' : Db)
      → db'.resolutions ≡ resolution_row c tenant row asked resolution now ∷ db.resolutions
      → answered_by c tenant resolution db' ≡ true
  unfolding answered_by kept_answer resolution_row
  answered_again later row asked db' kept = rw kept (
      ground (
        arith,
        eq_iff tenant tenant,
        eq_iff (resolution_id c resolution) (resolution_id c resolution),
        resolution_eq_refl resolution,
      ))

  not_taken_again :
      (later : ℕ) (r : RunRow)
      → r.awaiting ≡ none
      → resume_row c r resolution answerer true later ≡ ok (r, false)
  unfolding resume_row
  not_taken_again later r waits_not = ground arith

  -- What `resume` comes to, where the answer is taken.
  resumed_parts :
      {answer : RunRecord} {db' : Db}
      → resume c tenant run resolution answerer now db ≡ ok ((answer, true), db')
      → (row : RunRow) × (r : RunRow) × (db1 : Db) × (str_eq resolution.run_id run ≡ true)
        × (find_first (is_run tenant run) db.runs ≡ some row)
        × (resume_row c row resolution answerer (answered_by c tenant resolution db) now
            ≡ ok (r, true))
        × (keep_answer c tenant row resolution true now db ≡ ok db1)
        × (db'.runs ≡ put_run r db1.runs)
        × (db'.resolutions ≡ db1.resolutions)
        × (answer ≡ record_of r now)
  unfolding resume answer_with ended
  resumed_parts {answer} {db'} e =
      let (u1, named, e1) =
        >>=-eq-ok (raise_if (not (str_eq resolution.run_id run)) unprocessable) _ e in
      let (row, got, e2) = >>=-eq-ok (locked db tenant run none) _ e1 in
      let (change, made, e3) =
        >>=-eq-ok (resume_row c row resolution answerer (answered_by c tenant resolution db) now) _
          e2 in
      let (db1, kept, e4) = >>=-eq-ok (keep_answer c tenant row resolution change.1 now db) _ e3 in
      let written : change.1 ≡ true = ground arith in
      (
        row,
        change.0,
        db1,
        ground arith,
        (locked_found db tenant run none got).0,
        cc,
        subst (λ b. keep_answer c tenant row resolution b now db ≡ ok db1) written kept,
        ground arith,
        ground arith,
        ground arith,
      )

  -- An answer that was taken, sent again before anything else changes the tables, is known by the
  -- resolution kept for it: the same run is answered, unchanged, and the tables stay as they are.
  pub resume-resume :
      (later : ℕ) (db' : Db) (answer : RunRecord)
      → resume c tenant run resolution answerer now db ≡ ok ((answer, true), db')
      → IsRepeat db' answer (resume c tenant run resolution answerer later db')
  unfolding resume answer_with keep_answer record_of
  resume-resume later db' answer e =
      let (row, r, db1, named, there, made, kept, runs, resolutions, said) = resumed_parts e in
      let (asked, waits, own, waits_not) =
        taken_parts row r (answered_by c tenant resolution db) made in
      let (runs1, resolutions1) = kept_parts row asked db1 waits kept in
      let repeated : answered_by c tenant resolution db' ≡ true =
        answered_again later row asked db' (resolutions ∙ resolutions1) in
      let passes : is_run tenant run row ≡ true =
        find_first-passes (is_run tenant run) db.runs there in
      let passes' : is_run tenant run r ≡ true = ground arith in
      let there' : find_first (is_run tenant run) db'.runs ≡ some r =
        rw (runs, runs1) (find_first-put_run tenant run r db.runs passes' there) in
      (
        (record_of r later).worked_seconds,
        rw (
          said,
          named,
          locked_again db' tenant run there',
          repeated,
          not_taken_again later r waits_not,
        ),
      )

  fresh_kept :
      (row : RunRow) (asked : Interrupt) (db' : Db)
      → row.awaiting ≡ some asked
      → keep_answer c tenant row resolution true now db ≡ ok db'
      → find_first (λ r. str_eq r.resolution_id (resolution_id c resolution)) db.resolutions ≡ none
  unfolding keep_answer add_resolution resolution_row
  fresh_kept row asked db' waits e =
      elim (Option-cases
        (find_first (λ r. str_eq r.resolution_id (resolution_id c resolution)) db.resolutions)) [
          | inl nothing ↦ nothing
          | inr (old, there) ↦ absurd (ground arith)
        ]

  -- An answer is taken once for good: where `resume` takes one, no resolution was kept before under
  -- the id of that run and interrupt, and this one is now the newest of the table, with the interrupt
  -- that the run waited on and the attempt that asked. Where one is kept, no further answer to that
  -- interrupt is taken.
  pub resume-once :
      (db' : Db) (answer : RunRecord)
      → resume c tenant run resolution answerer now db ≡ ok ((answer, true), db')
      → (find_first (λ r. str_eq r.resolution_id (resolution_id c resolution)) db.resolutions
          ≡ none)
        × (row : RunRow) × (asked : Interrupt) × (find_first (is_run tenant run) db.runs ≡ some row)
        × (row.awaiting ≡ some asked)
        × (db'.resolutions ≡ resolution_row c tenant row asked resolution now ∷ db.resolutions)
  resume-once db' answer e =
      let (row, r, db1, named, there, made, kept, runs, resolutions, said) = resumed_parts e in
      let (asked, waits, own, waits_not) =
        taken_parts row r (answered_by c tenant resolution db) made in
      let (runs1, resolutions1) = kept_parts row asked db1 waits kept in
      (fresh_kept row asked db1 waits kept, row, asked, there, waits, resolutions ∙ resolutions1)
