-- ===== src/Tests/Samples.antt =====
-- The lifecycle of docs/ARCHITECTURE.md and the rows the examples are about.
use agent_runs.Base.{Bool, true, false, none, some, [], ◌∷◌, arith, Result, ok, err}
use agent_runs.Answering.{KeyInfo}
use agent_runs.Run.Status.{
  RunStatus, queued, running, paused, success, error, timeout, cancelled, Follows,
}
use agent_runs.Run.Rows.{
  RunStart, Interrupt, Resolution, plain, answered, RunRow, Db, Contracts, RunFinish, AgentError,
  said, other_category,
}
use agent_runs.Run.Store.{RunRecord}
use agent_runs.Run.Queue.{Limits, ClaimRequest}

abbrev pub lifecycle : RunStatus → RunStatus → Bool
lifecycle queued running = true
lifecycle queued cancelled = true
lifecycle queued timeout = true
lifecycle running running = false
lifecycle running _ = true
lifecycle paused queued = true
lifecycle paused running = true
lifecycle paused cancelled = true
lifecycle paused timeout = true
lifecycle _ _ = false

abbrev pub contracts : Contracts
contracts = record {
  can_become = lifecycle;
  timeout_retryable = true;
  resolves = λ resolution interrupt. true;
  is_schema = λ text. true;
  misfits = λ schema value. false;
  stable_id = λ run interrupt. interrupt;
}

pub lifecycle-Follows : Follows lifecycle
lifecycle-Follows = record {
  ended_stays = λ s t over. ground arith;
  before_running = λ s e. ground arith;
  before_paused = λ s e. ground arith;
  before_queued = λ s e. ground arith;
  can_stop = λ s live. ground arith;
  can_requeue = ground arith;
  can_run = ground arith;
  can_end = λ t over. ground arith;
}

abbrev pub first_start : RunStart
first_start = record {
  run_id = "r1";
  tenant_id = "t";
  agent_id = "a";
  parent_run_id = none;
  thread_id = none;
  user_id = none;
  workspace_id = none;
  on_behalf_of = none;
  input = some "{}";
  deadline = none;
  timeout_seconds = none;
  idempotency_key = some "k";
  agent_version = none;
  priority = 1000;
  concurrency_key = none;
  metadata = "{}";
}

abbrev pub question : Interrupt
question = record {
  interrupt_id = "i1";
  run_id = "r1";
  tenant_id = "t";
  expects = none;
  options = "a" ∷ "b" ∷ [];
  multiple = false;
  tool_call = none;
  assignee = some "user:ann";
  deadline = some 500;
  escalate_to = none;
}

abbrev pub reply : Resolution
reply = record {
  interrupt_id = "i1";
  run_id = "r1";
  decision = answered;
  answer = plain "a";
  payload = plain "null";
  reviewer = some "user:ann";
  remember = none;
  comment = none;
  resolved_at = 40;
}

abbrev pub failure : AgentError
failure = record {
  code = "boom";
  category = other_category "internal";
  message = said "boom";
  retryable = true;
  source = none;
}

abbrev pub failed : RunFinish
failed = record { status = error; output = none; error = some failure }

abbrev pub succeeded : RunFinish
succeeded = record { status = success; output = some "1"; error = none }

abbrev pub admin : KeyInfo
admin = record {
  key_id = "key";
  tenant_id = none;
  principal = "key:admin";
  role = "admin";
  may_act_as = [];
}

-- A row that waits on the queue.
abbrev pub queued_row : RunRow
queued_row = record {
  start = first_start;
  status = queued;
  output = none;
  error = none;
  awaiting = none;
  last_resolution = none;
  checkpoint = none;
  assignee = none;
  awaiting_deadline = none;
  attempt = 1;
  lease_lapses = 0;
  error_retries = 0;
  worked_seconds = 0;
  running_since = none;
  queued_at = some 1;
  available_at = none;
  lease_owner = none;
  lease_expires_at = none;
  settled_by = none;
  cancel_requested_at = none;
  cancel_reason = none;
  cancelled_by = none;
  created_at = 1;
  updated_at = 1;
}

-- The row under a worker's lease.
abbrev pub held_row : RunRow
held_row = record queued_row {
  status = running;
  running_since = some 2;
  lease_owner = some "w";
  lease_expires_at = some 90;
  updated_at = 2;
}

-- The row under the lease, asked to stop.
abbrev pub stopping_row : RunRow
stopping_row = record held_row { cancel_requested_at = some 5 }

-- The row that waits on the question.
abbrev pub paused_row : RunRow
paused_row = record queued_row {
  status = paused;
  worked_seconds = 8;
  awaiting = some question;
  assignee = some "user:ann";
  awaiting_deadline = some 500;
  settled_by = some "w";
  updated_at = 10;
}

abbrev pub ended_row : RunRow
ended_row = record queued_row {
  status = success;
  output = some "1";
  settled_by = some "w";
  updated_at = 20;
}

abbrev pub only : RunRow → Db
only row = record { runs = row ∷ []; resolutions = []; events = []; artifacts = [] }

abbrev pub limits : Limits
limits = record {
  max_run_seconds = some 1000;
  concurrency_per_key = 1;
  max_running_per_tenant = some 2;
}

abbrev pub ask : ClaimRequest
ask = record { worker_id = "w"; agent_ids = "a" ∷ []; lease_seconds = 60 }

abbrev no_record : RunRecord
no_record = record {
  start = first_start;
  status = queued;
  output = none;
  error = none;
  awaiting = none;
  last_resolution = none;
  checkpoint = none;
  attempt = 0;
  created_at = 0;
  updated_at = 0;
  worked_seconds = 0;
}

-- The two halves of what a request that succeeds comes to.
abbrev pub record_in : Result ((RunRecord × Bool) × Db) → RunRecord
record_in (ok ((answer, changed), db)) = answer
record_in (err e) = no_record

abbrev pub tables_in : Result ((RunRecord × Bool) × Db) → Db
tables_in (ok (answer, db)) = db
tables_in (err e) = record { runs = []; resolutions = []; events = []; artifacts = [] }
