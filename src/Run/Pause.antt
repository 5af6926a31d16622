-- ===== src/Run/Pause.antt =====
-- `RunStore.pause`: `pause_row` is what happens to the locked row, and `pause` finds the row and
-- writes it back.
use agent_runs.Base.{
  ℕ, String, Bool, true, false, not, ◌&&◌, Option, none, some, str_eq, opt_eq, if◌then◌else◌,
  Result, ok, unprocessable, raise_if, ◌>>=◌, ◌>>◌,
}
use agent_runs.Answers.{schema_problem}
use agent_runs.Run.Status.{paused}
use agent_runs.Run.Rows.{Json, Interrupt, RunRow, Db, Contracts, bounded_checkpoint}
use agent_runs.Run.Moves.{move, fence, settled, cancelled_instead}
use agent_runs.Run.Store.{RunRecord, change_run}

-- `(row.awaiting or {}).get("interrupt_id")`
abbrev pub waiting_on : Option Interrupt → Option String
waiting_on none = none
waiting_on (some interrupt) = some interrupt.interrupt_id

-- What `pause` writes after the move to PAUSED.
unfoldable pub asked_on : RunRow → Interrupt → Option Json → Option String → RunRow
asked_on row interrupt checkpoint worker = record row {
  checkpoint = checkpoint;
  awaiting = some interrupt;
  assignee = interrupt.assignee;
  awaiting_deadline = interrupt.deadline;
  settled_by = worker;
}

-- The move `pause` makes: the run ends CANCELLED where a cancel was asked for.
unfoldable pub paused_or_cancelled :
    Contracts
    → RunRow
    → Interrupt
    → Option Json
    → Option String
    → ℕ
    → Option RunRow
    → Result (RunRow × Bool)
unfolding move asked_on
paused_or_cancelled c row interrupt checkpoint worker now (some stopped) =
    ok (record stopped { settled_by = worker }, true)
paused_or_cancelled c row interrupt checkpoint worker now none = do
  r ← move c row paused now
  ok (asked_on r interrupt checkpoint worker, true)

unfoldable pub pause_row :
    Contracts → Interrupt → Option Json → Option String → ℕ → RunRow → Result (RunRow × Bool)
unfolding settled fence cancelled_instead paused_or_cancelled
pause_row c interrupt checkpoint worker now row =
    if settled row paused worker && opt_eq (waiting_on row.awaiting) (some interrupt.interrupt_id)
    then ok (row, false)
    else do
      fence row worker
      stopped ← cancelled_instead c row now
      paused_or_cancelled c row interrupt checkpoint worker now stopped

-- `RunStore.pause`
unfoldable pub pause :
    Contracts
    → String
    → String
    → Interrupt
    → Option Json
    → Option String
    → ℕ
    → Db
    → Result ((RunRecord × Bool) × Db)
unfolding schema_problem bounded_checkpoint
pause c tenant run interrupt checkpoint worker now db = do
  raise_if (not (str_eq interrupt.tenant_id tenant && str_eq interrupt.run_id run)) unprocessable
  raise_if (schema_problem c interrupt.expects) unprocessable
  kept ← bounded_checkpoint checkpoint
  change_run db tenant run now (pause_row c interrupt kept worker now)
