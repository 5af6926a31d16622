-- ===== src/Run/Repeat/Verbs.antt =====
-- The requests of workers and callers made twice.
use agent_runs.Base.{
  ℕ, String, ◌≡◌, true, false, ◌&&◌, ◌||◌, is_some, Option, none, arith, str_eq, inl, inr, eq_iff,
  opt_eq_iff, ok, ◌⊎◌, not, raise_if, unprocessable, >>=-eq-ok,
}
use agent_runs.Answers.{schema_problem}
use agent_runs.Answering.{KeyInfo, may_act_for, answering, require_may_answer, require_may_cancel}
use agent_runs.Run.Status.{final, queued, paused, error}
use agent_runs.Run.Rows.{Json, Interrupt, RunRow, RunFinish, Db, Contracts, bounded_checkpoint}
use agent_runs.Run.Moves.{settled, move, moved, requeue, requeued, retried, cancelled_instead}
use agent_runs.Run.Store.{RunRecord, record_of, ended, change_run}
use agent_runs.Run.Pause.{asked_on, paused_or_cancelled, pause_row, pause}
use agent_runs.Run.Ending.{
  finished_before, retry_row, end_row, finish_row, finish, stop_row, already_cancelled, cancel_row,
}
use agent_runs.Run.Ending
use agent_runs.Run.Leasing.{released_or_cancelled, release_row, release}
use agent_runs.Run.Repeat.{IsRepeat, change_run-IsRepeat}

-- The row written back is the one found again.
may_cancel_unassigned : (key : KeyInfo) → require_may_cancel key none ≡ ok tt
unfolding require_may_cancel require_may_answer may_act_for answering
may_cancel_unassigned key = ground (arith, eq_iff key.principal key.principal)

module _ (c : Contracts) (now later : ℕ) where
  finish_row-settled :
      (draw : ℕ) (ending : RunFinish) (worker : Option String) (row r : RunRow)
      → finish_row c draw ending worker now row ≡ ok (r, true)
      → (retry_row c draw row worker now ≡ ok (r, true)) × (retried row ending ≡ true)
        ⊎ (end_row c row ending worker now ≡ ok (r, true))
  unfolding finish_row
  finish_row-settled draw ending worker row r e = ground arith

  retry_row-settled :
      (draw : ℕ) (worker : Option String) (row r : RunRow)
      → retry_row c draw row worker now ≡ ok (r, true)
      → (r.start ≡ row.start) × (r.status ≡ queued) × (r.settled_by ≡ worker)
  unfolding retry_row requeue move moved requeued
  retry_row-settled draw worker row r e = ground arith

  end_row-settled :
      (ending : RunFinish) (worker : Option String) (row r : RunRow)
      → end_row c row ending worker now ≡ ok (r, true)
      → (r.start ≡ row.start) × (r.status ≡ ending.status) × (r.settled_by ≡ worker)
  unfolding end_row move moved
  end_row-settled ending worker row r e = ground arith

  retried-error :
      (row : RunRow) (ending : RunFinish) → retried row ending ≡ true → ending.status ≡ error
  unfolding retried
  retried-error row ending e = ground arith

  settled_again :
      (other : ℕ) (ending : RunFinish) (worker : Option String) (r : RunRow)
      → (r.status ≡ ending.status)
        ⊎ (r.status ≡ queued) × (ending.status ≡ error) × (is_some worker ≡ true)
      → r.settled_by ≡ worker
      → finish_row c other ending worker later r ≡ ok (r, false)
  unfolding finish_row finished_before settled
  settled_again other ending worker r which by = ground (arith, opt_eq_iff worker worker)

  finish_row-repeat :
      (draw other : ℕ) (ending : RunFinish) (worker : Option String) (row r : RunRow)
      → is_some worker || final r.status ≡ true
      → finish_row c draw ending worker now row ≡ ok (r, true)
      → (r.start ≡ row.start) × (finish_row c other ending worker later r ≡ ok (r, false))
  finish_row-repeat draw other ending worker row r known e =
      elim (finish_row-settled draw ending worker row r e) [
        | inl (again, was) ↦
            let (own, status, by) = retry_row-settled draw worker row r again in
            (
              own,
              settled_again other ending worker r
                  (inr (status, retried-error row ending was, ground arith)) by,
            )
        | inr ended ↦
            let (own, status, by) = end_row-settled ending worker row r ended in
            (own, settled_again other ending worker r (inl status) by)
      ]

  release_row-repeat :
      (worker : String) (checkpoint : Option Json) (row r : RunRow)
      → r.status ≡ queued
      → release_row c worker checkpoint now row ≡ ok (r, true)
      → (r.start ≡ row.start) × (release_row c worker checkpoint later r ≡ ok (r, false))
  unfolding release_row released_or_cancelled cancelled_instead settled move moved requeue
  release_row-repeat worker checkpoint row r live e = ground (arith, eq_iff worker worker)

  pause_row-repeat :
      (interrupt : Interrupt) (checkpoint : Option Json) (worker : Option String) (row r : RunRow)
      → r.status ≡ paused
      → pause_row c interrupt checkpoint worker now row ≡ ok (r, true)
      → (r.start ≡ row.start) × (pause_row c interrupt checkpoint worker later r ≡ ok (r, false))
  unfolding pause_row paused_or_cancelled cancelled_instead settled move moved asked_on
  pause_row-repeat interrupt checkpoint worker row r live e =
      ground (arith, opt_eq_iff worker worker, eq_iff interrupt.interrupt_id interrupt.interrupt_id)

  cancel_row-repeat :
      (canceller : KeyInfo) (reason : Option String) (row r : RunRow)
      → cancel_row c canceller reason now row ≡ ok (r, true)
      → (r.start ≡ row.start) × (cancel_row c canceller reason later r ≡ ok (r, false))
  unfolding cancel_row stop_row already_cancelled move moved
  cancel_row-repeat canceller reason row r e = ground (
    arith,
    may_cancel_unassigned canceller,
    eq_iff canceller.principal canceller.principal,
    opt_eq_iff reason reason,
  )

-- A finish that was taken, sent again by the same worker, or again without one where the first ended
-- the run and did not put it back on the queue, with any draw, at any instant before anything else
-- changes the tables: the answer is the first one's run, said to be unchanged,
-- and the tables stay as they are.
pub finish-finish :
    (c : Contracts) (now later draw other : ℕ) (tenant run : String) (worker : Option String)
    (ending : RunFinish) (db db' : Db) (answer : RunRecord)
    → is_some worker || final answer.status ≡ true
    → finish c draw tenant run ending worker now db ≡ ok ((answer, true), db')
    → IsRepeat db' answer (finish c other tenant run ending worker later db')
unfolding finish record_of
finish-finish c now later draw other tenant run worker ending db db' answer known e =
    let ends : final ending.status ≡ true = ground arith in
    let inner : change_run db tenant run now (finish_row c draw ending worker now)
        ≡ ok ((answer, true), db') =
      ground arith in
    let (worked, same) =
      change_run-IsRepeat db tenant run now later _ (finish_row c other ending worker later)
        (λ row r made said.
          finish_row-repeat c now later draw other ending worker row r (ground arith) made)
        inner in
    (worked, ground arith)

-- A cancel that was taken, sent again with the same key and reason before anything else changes the
-- tables: the same run is answered, unchanged, and the tables stay as they are.
pub cancel-cancel :
    (c : Contracts) (now later : ℕ) (tenant run : String) (reason : Option String)
    (canceller : KeyInfo) (db db' : Db) (answer : RunRecord)
    → Ending.cancel c tenant run reason canceller now db ≡ ok ((answer, true), db')
    → IsRepeat db' answer (Ending.cancel c tenant run reason canceller later db')
unfolding Ending.cancel
cancel-cancel c now later tenant run reason canceller db db' answer e =
    change_run-IsRepeat db tenant run now later _ (cancel_row c canceller reason later)
      (λ row r made said. cancel_row-repeat c now later canceller reason row r made) e

-- A worker's release that put the run back on the queue, sent again before anything else changes the
-- tables: the same run is answered, unchanged, and the tables stay as they are.
pub release-release :
    (c : Contracts) (now later : ℕ) (tenant run worker : String) (checkpoint : Option Json)
    (db db' : Db) (answer : RunRecord)
    → answer.status ≡ queued
    → release c tenant run worker checkpoint now db ≡ ok ((answer, true), db')
    → IsRepeat db' answer (release c tenant run worker checkpoint later db')
unfolding release record_of
release-release c now later tenant run worker checkpoint db db' answer back e =
    let (kept, small, inner) = >>=-eq-ok (bounded_checkpoint checkpoint) _ e in
    let (worked, same) =
      change_run-IsRepeat db tenant run now later _ (release_row c worker kept later)
        (λ row r made said.
          release_row-repeat c now later worker kept row r (said_status r said back) made)
        inner in
    (worked, rw (small, same))
  where
    said_status :
        (r : RunRow) → answer ≡ record_of r now → answer.status ≡ queued → r.status ≡ queued
    said_status r said back = ground arith

-- A pause that left the run PAUSED, sent again before anything else changes the tables: the same run is
-- answered, unchanged, and the tables stay as they are.
pub pause-pause :
    (c : Contracts) (now later : ℕ) (tenant run : String) (interrupt : Interrupt)
    (checkpoint : Option Json) (worker : Option String) (db db' : Db) (answer : RunRecord)
    → answer.status ≡ paused
    → pause c tenant run interrupt checkpoint worker now db ≡ ok ((answer, true), db')
    → IsRepeat db' answer (pause c tenant run interrupt checkpoint worker later db')
unfolding pause record_of
pause-pause c now later tenant run interrupt checkpoint worker db db' answer waits e =
    let (u1, named, e1) =
      >>=-eq-ok
        (raise_if (not (str_eq interrupt.tenant_id tenant && str_eq interrupt.run_id run))
          unprocessable)
        _ e in
    let (u2, schema, e2) =
      >>=-eq-ok (raise_if (schema_problem c interrupt.expects) unprocessable) _ e1 in
    let (kept, small, inner) = >>=-eq-ok (bounded_checkpoint checkpoint) _ e2 in
    let (worked, same) =
      change_run-IsRepeat db tenant run now later _ (pause_row c interrupt kept worker later)
        (λ row r made said.
          pause_row-repeat c now later interrupt kept worker row r (said_status r said waits) made)
        inner in
    (worked, rw (named, schema, small, same))
  where
    said_status :
        (r : RunRow) → answer ≡ record_of r now → answer.status ≡ paused → r.status ≡ paused
    said_status r said back = ground arith
