-- ===== src/Run/Resume.antt =====
-- `RunStore.resume`: a person's answer to the interrupt a paused run waits on.
use agent_runs.Base.{
  ℕ, ◌+◌, String, Bool, true, false, not, ◌&&◌, Option, none, some, List, [], ◌∷◌, str_eq, opt_eq,
  is_some, ◌==◌, if◌then◌else◌, find_first, Result, ok, err, conflict, unprocessable, internal,
  raise_if, ◌>>=◌, ◌>>◌,
}
use agent_runs.Answering.{KeyInfo, require_may_answer}
use agent_runs.Answers.{answer_problem}
use agent_runs.Run.Status.{running, cancelled}
use agent_runs.Run.Rows.{
  Json, Interrupt, Resolution, Value, plain, items, InterruptDecision, approve, reject, answered,
  edit, cancel, RunRow, ResolutionRow, Db, Contracts,
}
use agent_runs.Run.Moves.{move, requeue}
use agent_runs.Run.Store.{RunRecord, locked, answer_with}
use agent_runs.Run.Pause.{waiting_on}

abbrev pub decision_code : InterruptDecision → ℕ
decision_code approve = 0
decision_code reject = 1
decision_code answered = 2
decision_code edit = 3
decision_code cancel = 4

-- `decision is InterruptDecision.CANCEL`
abbrev pub is_cancel : InterruptDecision → Bool
is_cancel decision = decision_code decision == 4

abbrev pub items_eq : List Json → List Json → Bool
items_eq [] [] = true
items_eq [] (y ∷ ys) = false
items_eq (x ∷ xs) [] = false
items_eq (x ∷ xs) (y ∷ ys) = str_eq x y && items_eq xs ys

abbrev pub value_eq : Value → Value → Bool
value_eq (plain a) (plain b) = str_eq a b
value_eq (items as') (items bs) = items_eq as' bs
value_eq _ _ = false

-- Two resolutions have the same JSON.
unfoldable pub resolution_eq : Resolution → Resolution → Bool
resolution_eq a b =
    str_eq a.interrupt_id b.interrupt_id
    && (str_eq a.run_id b.run_id
        && (decision_code a.decision == decision_code b.decision
            && (value_eq a.answer b.answer
                && (value_eq a.payload b.payload
                    && (opt_eq a.reviewer b.reviewer
                        && (opt_eq a.remember b.remember
                            && (opt_eq a.comment b.comment && a.resolved_at == b.resolved_at)))))))

-- `_resolution_id`
unfoldable pub resolution_id : Contracts → Resolution → String
resolution_id c resolution = c.stable_id resolution.run_id resolution.interrupt_id

-- The row kept under an id in this tenant.
unfoldable pub kept_answer : String → String → List ResolutionRow → Option ResolutionRow
kept_answer tenant id rows =
    find_first (λ r. str_eq r.tenant_id tenant && str_eq r.resolution_id id) rows

-- `_answered_by`
unfoldable pub answered_by : Contracts → String → Resolution → Db → Bool
unfolding resolution_id kept_answer resolution_eq
answered_by c tenant resolution db =
    elim (kept_answer tenant (resolution_id c resolution) db.resolutions) [
      | none ↦ false
      | some kept ↦ resolution_eq kept.resolution resolution
    ]

-- How the answered run goes on: cancelled, back on the queue when it was ever queued, else RUNNING.
unfoldable pub continued : Contracts → RunRow → InterruptDecision → ℕ → Result RunRow
unfolding move requeue
continued c row decision now =
    if is_cancel decision
    then move c row cancelled now
    else if is_some row.queued_at
    then requeue c row now none
    else do r ← move c row running now; ok (record r { attempt = r.attempt + 1 })

-- The answer to the question the run waits on: who may give it, and that it fits.
unfoldable pub answer_row :
    Contracts → RunRow → Interrupt → Resolution → KeyInfo → ℕ → Result (RunRow × Bool)
answer_row c row asked resolution answerer now = do
  require_may_answer answerer asked.assignee resolution.reviewer
  raise_if (answer_problem c asked resolution) unprocessable
  r ← continued c (record row { last_resolution = some resolution }) resolution.decision now
  ok (r, true)

-- `repeated`: this very resolution is the one kept for its interrupt (`_answered_by`).
unfoldable pub resume_row :
    Contracts → RunRow → Resolution → KeyInfo → Bool → ℕ → Result (RunRow × Bool)
unfolding answer_row
resume_row c row resolution answerer repeated now =
    if not (opt_eq (waiting_on row.awaiting) (some resolution.interrupt_id))
    then (if repeated then ok (row, false) else err conflict)
    else elim row.awaiting [
      | none ↦ err conflict
      | some asked ↦ answer_row c row asked resolution answerer now
    ]

-- The `ResolutionRow` a taken answer adds.
unfoldable pub resolution_row :
    Contracts → String → RunRow → Interrupt → Resolution → ℕ → ResolutionRow
unfolding resolution_id
resolution_row c tenant row asked resolution now = record {
  resolution_id = resolution_id c resolution;
  run_id = row.run_id;
  tenant_id = tenant;
  interrupt = asked;
  resolution = resolution;
  attempt = row.attempt;
  recorded_at = now;
}

-- The insert is flushed under the table's primary key: a second row with one id is refused by the
-- database (an `IntegrityError`, no `ServiceError`).
unfoldable pub add_resolution : ResolutionRow → List ResolutionRow → Result (List ResolutionRow)
add_resolution row rows =
    if is_some (find_first (λ r. str_eq r.resolution_id row.resolution_id) rows)
    then err internal
    else ok (row ∷ rows)

-- The resolution that `resume` keeps, when the answer was taken.
unfoldable pub keep_answer : Contracts → String → RunRow → Resolution → Bool → ℕ → Db → Result Db
unfolding resolution_row add_resolution
keep_answer c tenant row resolution false now db = ok db
keep_answer c tenant row resolution true now db = elim row.awaiting [
  | none ↦ ok db
  | some asked ↦ do
    rows ← add_resolution (resolution_row c tenant row asked resolution now) db.resolutions
    ok (record db { resolutions = rows })
]

-- `RunStore.resume`
unfoldable pub resume :
    Contracts → String → String → Resolution → KeyInfo → ℕ → Db → Result ((RunRecord × Bool) × Db)
unfolding answered_by
resume c tenant run resolution answerer now db = do
  raise_if (not (str_eq resolution.run_id run)) unprocessable
  row ← locked db tenant run none
  change ← resume_row c row resolution answerer (answered_by c tenant resolution db) now
  db' ← keep_answer c tenant row resolution change.1 now db
  ok (answer_with db' now change)
