-- ===== src/Schedule/Store.antt =====
-- `ScheduleStore` of src/agent_runs/store/schedules.py.
use agent_runs.Base.{
  ℕ, ◌+◌, max, String, Bool, true, false, not, ◌&&◌, ◌||◌, Option, none, some, List, [], ◌∷◌,
  str_eq, is_some, holds, ltb, leb, select, find_first, sort_by, if◌then◌else◌, Result, ok, err,
  conflict, not_found, unprocessable, raise_if, ◌>>=◌, ◌>>◌,
}
use agent_runs.Retry.{minutes, hours, backoff}
use agent_runs.Run.Rows.{AgentError}
use agent_runs.Schedule.Cadence.{Cron, validate_cadence, next_fire_at}
use agent_runs.Schedule.Rows.{Members, ScheduleSpec, ScheduleRow, Formats, merged, ScheduleUpdate}

abbrev pub max_consecutive_failures : ℕ
max_consecutive_failures = 3

abbrev pub fire_retry_base : ℕ
fire_retry_base = minutes 5

abbrev pub fire_retry_cap : ℕ
fire_retry_cap = hours 1

-- What the operations call that is not theirs, and the instant cadences are probed from.
pub record World : Type 0 where
  pub cron : Cron
  pub formats : Formats
  pub probe_from : ℕ

-- `_checked`
unfoldable pub checked : World → ScheduleSpec → Result ScheduleSpec
checked w spec = do
  raise_if (not (w.formats.is_spec spec)) unprocessable
  cadence ← validate_cadence w.cron w.probe_from spec.cadence
  ok (record spec { cadence = cadence })

-- `_apply`
unfoldable pub apply : World → ScheduleRow → ScheduleSpec → ScheduleRow
apply w row spec = record row { spec = spec; input_sha256 = w.formats.sha256 spec.input }

-- `_arm`
unfoldable pub arm : World → ScheduleRow → ℕ → ScheduleRow
arm w row after = record row {
  next_fire_at = next_fire_at w.cron row.spec.cadence after row.spec.timezone;
}

-- The pending occurrence is not yet superseded at an instant.
unfoldable pub still_pending : World → ScheduleRow → ℕ → Bool
still_pending w row at = holds row.next_fire_at (λ pending.
    ltb at pending
    || holds (next_fire_at w.cron row.spec.cadence pending row.spec.timezone)
        (λ following. ltb at following))

-- `_rearm`
unfoldable pub rearm : World → ScheduleRow → ℕ → ScheduleRow
unfolding arm still_pending
rearm w row at = if still_pending w row at then row else arm w row at

-- Equal in the columns of the identity index.
unfoldable pub same_identity : ScheduleRow → ScheduleRow → Bool
same_identity a b =
    str_eq a.spec.tenant_id b.spec.tenant_id
    && (str_eq a.spec.agent_id b.spec.agent_id
        && (str_eq a.spec.on_behalf_of b.spec.on_behalf_of
            && (str_eq a.spec.cadence b.spec.cadence && str_eq a.input_sha256 b.input_sha256)))

-- The row an upsert would insert.
unfoldable pub fresh_schedule : World → String → ScheduleSpec → String → ℕ → ScheduleRow
unfolding apply arm
fresh_schedule w id spec created_by now =
    let blank : ScheduleRow = record {
      schedule_id = id;
      spec = spec;
      input_sha256 = "";
      created_by = created_by;
      next_fire_at = none;
      last_fired_at = none;
      last_run_id = none;
      consecutive_failures = 0;
      last_error = none;
      retry_after = none;
      created_at = now;
      updated_at = now;
    } in
    arm w (apply w blank spec) now

-- `ScheduleStore.upsert`, with the new id given.
unfoldable pub upsert :
    World
    → String
    → ScheduleSpec
    → String
    → ℕ
    → List ScheduleRow
    → Result ((ScheduleRow × Bool) × List ScheduleRow)
upsert w id spec created_by now rows = do
  valid ← checked w spec
  let row = fresh_schedule w id valid created_by now
  elim (find_first (same_identity row) rows) [
    | none ↦ ok ((row, true), row ∷ rows)
    | some existing ↦ ok ((existing, false), rows)
  ]

abbrev pub is_schedule : String → String → ScheduleRow → Bool
is_schedule tenant id row = str_eq row.spec.tenant_id tenant && str_eq row.schedule_id id

-- `_row`
unfoldable pub schedule_row : String → String → List ScheduleRow → Result ScheduleRow
schedule_row tenant id rows = elim (find_first (is_schedule tenant id) rows) [
  | none ↦ err not_found
  | some row ↦ ok row
]

-- The row written back under its primary key.
unfoldable pub put_schedule : ScheduleRow → List ScheduleRow → List ScheduleRow
put_schedule row [] = []
put_schedule row (r ∷ rs) =
    (if str_eq r.schedule_id row.schedule_id then row else r) ∷ put_schedule row rs

-- A field that may not be null: the old value where nothing was sent; null makes the spec invalid.
abbrev pub required : {A : Type 0} → Option (Option A) → A → Result A
required none old = ok old
required (some none) old = err unprocessable
required (some (some new)) old = ok new

abbrev pub optional : {A : Type 0} → Option (Option A) → Option A → Option A
optional none old = old
optional (some new) old = new

abbrev pub merged_metadata : Option (Option Members) → Members → Members
merged_metadata none old = old
merged_metadata (some none) old = old
merged_metadata (some (some new)) old = merged old new

-- The spec with the fields sent.
unfoldable pub changed_spec : ScheduleSpec → ScheduleUpdate → Result ScheduleSpec
changed_spec old change = do
  agent ← required change.agent_id old.agent_id
  label ← required change.name old.name
  cadence ← required change.cadence old.cadence
  timezone ← required change.timezone old.timezone
  enabled ← required change.enabled old.enabled
  priority ← required change.priority old.priority
  ok (record old {
    agent_id = agent;
    name = label;
    cadence = cadence;
    timezone = timezone;
    input = optional change.input old.input;
    workspace_id = optional change.workspace_id old.workspace_id;
    enabled = enabled;
    timeout_seconds = optional change.timeout_seconds old.timeout_seconds;
    agent_version = optional change.agent_version old.agent_version;
    priority = priority;
    concurrency_key = optional change.concurrency_key old.concurrency_key;
    metadata = merged_metadata change.metadata old.metadata;
  })

-- What `update` does to the clock of the row, given its cadence or zone changed, or it was enabled.
unfoldable pub retimed_row : World → ScheduleRow → Bool → Bool → ℕ → ScheduleRow
unfolding arm rearm
retimed_row w row retimed re_enabled now =
    if retimed then arm w row now else if re_enabled then rearm w row now else row

unfoldable pub cleared : ScheduleRow → Bool → ScheduleRow
cleared row re_enabled =
    if re_enabled
    then record row { consecutive_failures = 0; last_error = none; retry_after = none }
    else row

-- The row with the spec of an update.
unfoldable pub updated_row : World → ScheduleRow → ScheduleSpec → ℕ → ScheduleRow
unfolding apply retimed_row cleared
updated_row w row spec now =
    let retimed =
      not (str_eq spec.cadence row.spec.cadence && str_eq spec.timezone row.spec.timezone) in
    let re_enabled = spec.enabled && not row.spec.enabled in
    record (cleared (retimed_row w (apply w row spec) retimed re_enabled now) re_enabled) {
      updated_at = now;
    }

-- Another row has the identity.
unfoldable pub duplicates : ScheduleRow → List ScheduleRow → Bool
unfolding same_identity
duplicates row rows =
    is_some
      (find_first (λ r. not (str_eq r.schedule_id row.schedule_id) && same_identity row r) rows)

-- `ScheduleStore.update`
unfoldable pub update :
    World
    → String
    → String
    → ScheduleUpdate
    → ℕ
    → List ScheduleRow
    → Result (ScheduleRow × List ScheduleRow)
update w tenant id change now rows = do
  row ← schedule_row tenant id rows
  spec ← changed_spec row.spec change
  valid ← checked w spec
  let left = updated_row w row valid now
  raise_if (duplicates left rows) conflict
  ok (left, put_schedule left rows)

-- `ScheduleStore.delete`
unfoldable pub delete : String → String → List ScheduleRow → Result (List ScheduleRow)
delete tenant id rows = do
  row ← schedule_row tenant id rows
  ok (select (λ r. not (str_eq r.schedule_id row.schedule_id)) rows)

-- Enabled, due, and not held back by a failure's wait.
unfoldable pub is_due : ℕ → ScheduleRow → Bool
is_due now row =
    row.spec.enabled
    && (holds row.next_fire_at (λ at. leb at now)
        && (not (is_some row.retry_after) || holds row.retry_after (λ at. leb at now)))

-- The first row of a list.
abbrev pub first_of : List ScheduleRow → Option ScheduleRow
first_of [] = none
first_of (row ∷ rows) = some row

-- `claim_due`; `free` says which rows no other ticker holds.
unfoldable pub claim_due : (ScheduleRow → Bool) → ℕ → List ScheduleRow → Option ScheduleRow
unfolding is_due
claim_due free now rows = first_of (
    sort_by (λ a b. holds a.next_fire_at (λ x. holds b.next_fire_at (λ y. ltb x y)))
      (select (λ r. is_due now r && free r) rows))

-- What `record_success` writes.
unfoldable pub fired_row : World → ScheduleRow → ℕ → String → ℕ → ScheduleRow
unfolding arm
fired_row w row fire_time run now =
    let advanced = arm w row (max fire_time now) in
    record advanced {
      last_fired_at = some fire_time;
      last_run_id = some run;
      consecutive_failures = 0;
      last_error = none;
      retry_after = none;
      updated_at = now;
    }

-- What `record_failure` writes; an OverflowError of the wait would undo it.
unfoldable pub struck_row : ScheduleRow → AgentError → ℕ → ScheduleRow
struck_row row error now =
    let failures = row.consecutive_failures + 1 in
    if not error.retryable || leb max_consecutive_failures failures
    then record row {
      consecutive_failures = failures;
      last_error = some error;
      spec = record row.spec { enabled = false };
      retry_after = none;
      updated_at = now;
    }
    else elim (backoff fire_retry_base failures fire_retry_cap) [
      | none ↦ row
      | some wait ↦ record row {
        consecutive_failures = failures;
        last_error = some error;
        retry_after = some (now + wait);
        updated_at = now;
      }
    ]
