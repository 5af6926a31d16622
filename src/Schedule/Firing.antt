-- ===== src/Schedule/Firing.antt =====
-- `Firing` of src/agent_runs/firing.py: one run queued for one tick, in the transaction that advances
-- the schedule. Whether the database refuses the start is given (`outage`); the id a run is minted
-- with is too.
pub mod Sound
pub mod Served
pub mod Once
pub mod Again
use Prim.Native.String.{◌++◌}
use agent_runs.Base.{
  ℕ, ◌+◌, String, Bool, true, false, not, ◌&&◌, Option, none, some, List, [], ◌∷◌, str_eq, holds,
  ltb, leb, if◌then◌else◌, Result, ok, err, conflict, unprocessable, raise_if, ◌>>=◌, ◌>>◌,
}
use agent_runs.Retry.{minutes}
use agent_runs.Run.Rows.{Json, RunStart, AgentError, Db}
use agent_runs.Run.Starts.{start_run}
use agent_runs.Schedule.Rows.{Members, ScheduleRow, Formats, member, put_member}
use agent_runs.Schedule.Store.{World, schedule_row, put_schedule, claim_due, fired_row, struck_row}

abbrev pub max_fire_skew : ℕ
max_fire_skew = minutes 1

-- The tables a fire writes.
pub record Planner : Type 0 where
  pub db : Db
  pub schedules : List ScheduleRow

-- `idempotency_key`
unfoldable pub idempotency_key : Formats → String → ℕ → String
idempotency_key formats id fire_time = id ++ ("@" ++ formats.isoformat fire_time)

-- `_thread`
unfoldable pub thread_of : Formats → Members → Option String
unfolding member
thread_of formats metadata = elim (member "thread_id" metadata) [
  | none ↦ none
  | some value ↦ elim (formats.text_of value) [
    | none ↦ none
    | some thread ↦ if str_eq thread "" then none else some thread
  ]
]

-- The metadata of a fired run: the fire's own names win.
unfoldable pub fire_metadata : Formats → ScheduleRow → ℕ → Members
unfolding put_member
fire_metadata formats row fire_time = put_member "created_by" (formats.quoted row.created_by) (
    put_member "fire_time" (formats.quoted (formats.isoformat fire_time)) (
      put_member "schedule_name" (formats.quoted row.spec.name)
        (put_member "schedule_id" (formats.quoted row.schedule_id) row.spec.metadata)))

-- The start of a fire.
unfoldable pub fire_start : Formats → String → ScheduleRow → ℕ → RunStart
unfolding idempotency_key thread_of fire_metadata
fire_start formats run row fire_time = record {
  run_id = run;
  tenant_id = row.spec.tenant_id;
  agent_id = row.spec.agent_id;
  parent_run_id = none;
  thread_id = thread_of formats row.spec.metadata;
  user_id = none;
  workspace_id = row.spec.workspace_id;
  on_behalf_of = some row.spec.on_behalf_of;
  input = row.spec.input;
  deadline = none;
  timeout_seconds = row.spec.timeout_seconds;
  idempotency_key = some (idempotency_key formats row.schedule_id fire_time);
  agent_version = row.spec.agent_version;
  priority = row.spec.priority;
  concurrency_key = row.spec.concurrency_key;
  metadata = formats.json_of (fire_metadata formats row fire_time);
}

-- What a fire comes to: the run it queued or found, or the failure it recorded, which is committed.
pub data Fired : Type 0 where
  queued_run : String → ℕ → Fired
  fire_failed : AgentError → Fired

-- `_fire`
unfoldable pub fire_at :
    World → String → Option AgentError → ScheduleRow → ℕ → ℕ → Planner → Result (Fired × Planner)
unfolding put_schedule
fire_at w run outage row fire_time now p = elim outage [
  | some error ↦ ok (
    fire_failed error,
    record p { schedules = put_schedule (struck_row row error now) p.schedules },
  )
  | none ↦ do
    started ← start_run (fire_start w.formats run row fire_time) true now false p.db
    let id = started.0.0.run_id
    ok (
      queued_run id fire_time,
      record {
        db = started.1;
        schedules = put_schedule (fired_row w row fire_time id now) p.schedules;
      },
    )
]

-- The tick a fire is for: the instant asked for, the tick the schedule is due for, or now.
unfoldable pub tick_of : ScheduleRow → Option ℕ → ℕ → ℕ
tick_of row (some at) now = at
tick_of row none now = elim row.next_fire_at [
  | none ↦ now
  | some due ↦ if leb due now then due else now
]

-- `Firing.fire`
unfoldable pub fire :
    World
    → String
    → Option AgentError
    → String
    → String
    → Option ℕ
    → ℕ
    → Planner
    → Result (Fired × Planner)
unfolding schedule_row tick_of
fire w run outage tenant id at now p = do
  row ← schedule_row tenant id p.schedules
  raise_if (not row.spec.enabled) conflict
  raise_if (holds at (λ t. ltb (now + max_fire_skew) t)) unprocessable
  fire_at w run outage row (tick_of row at now) now p

-- `Firing.fire_due`
unfoldable pub fire_due :
    World
    → String
    → Option AgentError
    → (ScheduleRow → Bool)
    → ℕ
    → Planner
    → Result (Option Fired × Planner)
fire_due w run outage free now p = elim (claim_due free now p.schedules) [
  | none ↦ ok (none, p)
  | some row ↦ elim row.next_fire_at [
    | none ↦ ok (none, p)
    | some due ↦ do fired ← fire_at w run outage row due now p; ok (some fired.0, fired.1)
  ]
]
