-- ===== src/Run/Events.antt =====
-- The event log of a run and who may write beside it: `RunStore.append_events`, `events` and
-- `check_artifact_writer` of src/agent_runs/store/runs.py.
pub mod Appends
use agent_runs.Base.{
  ℕ, ◌+◌, String, Bool, true, false, not, ◌&&◌, ◌||◌, Option, none, List, [], ◌∷◌, str_eq, is_some,
  ltb, ◌==◌, max, take, select, sort_by, if◌then◌else◌, Result, ok, err, conflict, lease_lost,
  forbidden, unprocessable, raise_if, ◌>>=◌, ◌>>◌,
}
use agent_runs.Run.Status.{RunStatus, running, paused, status_eq}
use agent_runs.Run.Rows.{Json, RunRow, RunEventRow, Db}
use agent_runs.Run.Moves.{held_by}
use agent_runs.Run.Store.{found, locked}

-- The contracts' `RunEvent`, as far as the log reads it.
pub record RunEvent : Type 0 where
  pub run_id : String
  pub tenant_id : String
  pub attempt : ℕ
  pub sequence : ℕ
  pub body : Json

-- Every event names this run and tenant.
unfoldable pub names_run : String → String → List RunEvent → Bool
names_run tenant run [] = true
names_run tenant run (e ∷ es) =
    str_eq e.tenant_id tenant && str_eq e.run_id run && names_run tenant run es

-- The run's log holds an event of this attempt and sequence.
unfoldable pub is_logged : String → ℕ → ℕ → List RunEventRow → Bool
is_logged run attempt sequence [] = false
is_logged run attempt sequence (r ∷ rs) =
    (str_eq r.run_id run && (r.attempt == attempt && r.sequence == sequence))
    || is_logged run attempt sequence rs

-- `coalesce(max(position), 0)` of the run's events.
unfoldable pub last_position : String → List RunEventRow → ℕ
last_position run [] = 0
last_position run (r ∷ rs) =
    let rest = last_position run rs in if str_eq r.run_id run then max r.position rest else rest

-- The log while an append goes on: the rows, the last position, and how many were added.
pub record LogState : Type 0 where
  pub rows : List RunEventRow
  pub position : ℕ
  pub added : ℕ

unfoldable pub event_row : String → String → ℕ → RunEvent → RunEventRow
event_row tenant run position e = record {
  run_id = run;
  position = position;
  tenant_id = tenant;
  attempt = e.attempt;
  sequence = e.sequence;
  event = e.body;
}

-- One round of the loop: an event already seen is skipped.
unfoldable pub add_event : String → String → RunEvent → LogState → LogState
unfolding is_logged event_row
add_event tenant run e log = if is_logged run e.attempt e.sequence log.rows then log else record {
  rows = event_row tenant run (log.position + 1) e ∷ log.rows;
  position = log.position + 1;
  added = log.added + 1;
}

unfoldable pub add_events : String → String → List RunEvent → LogState → LogState
unfolding add_event
add_events tenant run [] log = log
add_events tenant run (e ∷ es) log = add_events tenant run es (add_event tenant run e log)

-- Only a running run is written to, by whoever holds it.
unfoldable pub may_append : RunRow → Option String → Result (Unit {0})
unfolding held_by
may_append row worker = do
  raise_if (not (status_eq row.status running) && is_some worker) lease_lost
  raise_if (not (status_eq row.status running)) conflict
  held_by row worker

-- `RunStore.append_events`: how many events were added, and the last position.
unfoldable pub append_events :
    String → String → List RunEvent → Option String → Db → Result ((ℕ × ℕ) × Db)
append_events tenant run events worker db = do
  raise_if (not (names_run tenant run events)) unprocessable
  row ← locked db tenant run none
  may_append row worker
  let log =
      add_events tenant run events
        (record { rows = db.events; position = last_position run db.events; added = 0 })
  ok ((log.added, log.position), record db { events = log.rows })

-- `RunStore.events`: the run's events past a position, oldest first, and the status read before.
unfoldable pub events_after : String → String → ℕ → ℕ → Db → Result (List RunEventRow × RunStatus)
unfolding found
events_after tenant run after limit db = do
  row ← found db tenant run
  ok (
    take limit (
        sort_by (λ a b. ltb a.position b.position)
          (select (λ e. str_eq e.run_id run && ltb after e.position) db.events)),
    row.status,
  )

-- `RunStore.check_artifact_writer`, with `PAUSED_ARTIFACT_ROLE` written out.
unfoldable pub check_artifact_writer :
    String → String → Option String → String → Db → Result (Unit {0})
unfolding found held_by
check_artifact_writer tenant run worker role db = do
  row ← found db tenant run
  if status_eq row.status running
      then held_by row worker
      else if status_eq row.status paused
      then raise_if (not (str_eq role "service")) forbidden
      else if is_some worker
      then err lease_lost
      else err conflict
