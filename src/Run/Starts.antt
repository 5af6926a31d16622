-- ===== src/Run/Starts.antt =====
-- `RunStore.start`: recording a run, or finding the one an earlier start made.
use agent_runs.Base.{
  ℕ, String, Bool, true, false, not, ◌&&◌, ◌||◌, Option, none, some, List, ◌∷◌, str_eq, opt_eq,
  truthy, is_some, ◌==◌, if◌then◌else◌, find_first, Result, ok, err, conflict,
}
use agent_runs.Run.Status.{queued, running}
use agent_runs.Run.Rows.{RunStart, RunRow, Db}
use agent_runs.Run.Store.{RunRecord, record_of, is_run}

-- The row a start inserts.
unfoldable pub new_row : RunStart → Bool → ℕ → RunRow
new_row start queue now = record {
  start = start;
  status = if queue then queued else running;
  output = none;
  error = none;
  awaiting = none;
  last_resolution = none;
  checkpoint = none;
  assignee = none;
  awaiting_deadline = none;
  attempt = 1;
  lease_lapses = 0;
  error_retries = 0;
  worked_seconds = 0;
  running_since = if queue then none else some now;
  queued_at = if queue then some now else none;
  available_at = none;
  lease_owner = none;
  lease_expires_at = none;
  settled_by = none;
  cancel_requested_at = none;
  cancel_reason = none;
  cancelled_by = none;
  created_at = now;
  updated_at = now;
}

abbrev pub has_id : String → RunRow → Bool
has_id run row = str_eq row.run_id run

-- A NULL key is never equal to another.
abbrev pub has_key : String → Option String → RunRow → Bool
has_key tenant key row =
    str_eq row.tenant_id tenant && (is_some key && opt_eq row.idempotency_key key)

-- The primary key `run_id`, or the unique index on `(tenant_id, idempotency_key)`.
unfoldable pub taken : RunStart → List RunRow → Bool
taken start rows = is_some (
    find_first (λ r. has_id start.run_id r || has_key start.tenant_id start.idempotency_key r) rows)

abbrev pub opt_num_eq : Option ℕ → Option ℕ → Bool
opt_num_eq none none = true
opt_num_eq none (some b) = false
opt_num_eq (some a) none = false
opt_num_eq (some a) (some b) = a == b

-- Two starts ask for the same run: the fields of `_START_FIELDS` agree.
unfoldable pub same_start : RunStart → RunStart → Bool
same_start a b =
    str_eq a.agent_id b.agent_id
    && (opt_eq a.parent_run_id b.parent_run_id
        && (opt_eq a.thread_id b.thread_id
            && (opt_eq a.user_id b.user_id
                && (opt_eq a.workspace_id b.workspace_id
                    && (opt_eq a.on_behalf_of b.on_behalf_of
                        && (opt_eq a.input b.input
                            && (opt_num_eq a.deadline b.deadline
                                && (opt_num_eq a.timeout_seconds b.timeout_seconds
                                    && (a.priority == b.priority
                                        && (opt_eq a.concurrency_key b.concurrency_key
                                            && str_eq a.metadata b.metadata))))))))))

-- `_differing` finds nothing.
unfoldable pub same_request : RunRow → RunStart → Bool → Bool
unfolding same_start
same_request row start queue =
    same_start start row.start
    && (if queue then is_some row.queued_at else not (is_some row.queued_at))

-- The run a start finds under its own id, in its own tenant.
unfoldable pub found_by_id : RunStart → ℕ → Db → Result ((RunRecord × Bool) × Db)
unfolding record_of
found_by_id start now db = elim (find_first (is_run start.tenant_id start.run_id) db.runs) [
  | none ↦ err conflict
  | some row ↦ ok ((record_of row now, false), db)
]

-- The run a start finds under its idempotency key.
unfoldable pub found_by_key :
    RunStart → Bool → ℕ → Bool → Db → RunRow → Result ((RunRecord × Bool) × Db)
unfolding record_of
found_by_key start queue now strict db row =
    if strict && not (same_request row start queue)
    then err conflict
    else ok ((record_of row now, false), db)

-- What a start that inserted nothing answers.
unfoldable pub existing : RunStart → Bool → ℕ → Bool → Db → Result ((RunRecord × Bool) × Db)
existing start queue now strict db =
    if truthy start.idempotency_key
    then elim (find_first (has_key start.tenant_id start.idempotency_key) db.runs) [
      | none ↦ found_by_id start now db
      | some row ↦ found_by_key start queue now strict db row
    ]
    else found_by_id start now db

-- `RunStore.start`
unfoldable pub start_run : RunStart → Bool → ℕ → Bool → Db → Result ((RunRecord × Bool) × Db)
unfolding record_of
start_run start queue now strict db =
    if taken start db.runs
    then existing start queue now strict db
    else let row = new_row start queue now in
      ok ((record_of row now, true), record db { runs = row ∷ db.runs })
