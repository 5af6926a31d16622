-- ===== src/Run/Service.antt =====
-- The operations of the run store as requests to it, each in a transaction of its own: one that fails
-- is rolled back, so the tables stay as they were.
use agent_runs.Base.{ℕ, String, Bool, Option, List, [], Result, ok, err, ◌≡◌}
use agent_runs.Answering.{KeyInfo}
use agent_runs.Run.Rows.{Json, RunStart, Interrupt, Resolution, RunRow, RunFinish, Db, Contracts}
use agent_runs.Run.Starts.{start_run}
use agent_runs.Run.Pause.{pause}
use agent_runs.Run.Resume.{resume}
use agent_runs.Run.Ending
use agent_runs.Run.Ending.{finish}
use agent_runs.Run.Leasing.{heartbeat, release}
use agent_runs.Run.Queue.{Limits, ClaimRequest}
use agent_runs.Run.Claim.{ClaimLock, claim}
use agent_runs.Run.Sweeps.{
  time_out_past_deadline, time_out_overworked, requeue_lapsed, escalate_overdue,
}
use agent_runs.Run.Retention.{purge_ended}
use agent_runs.Run.Events.{RunEvent, append_events}
use agent_runs.Run.Artifacts.{StoredBlob, add_artifact, remove_artifacts}

-- The routes name a tenant and a run; a sweep says which rows no other transaction holds and how many
-- it takes.
pub data Request : Type 0 where
  start_request : RunStart → Bool → Bool → Request
  pause_request : String → String → Interrupt → Option Json → Option String → Request
  resume_request : String → String → Resolution → KeyInfo → Request
  cancel_request : String → String → Option String → KeyInfo → Request
  finish_request : ℕ → String → String → RunFinish → Option String → Request
  claim_request :
      Option String → ClaimRequest → (RunRow → Bool) → (ClaimLock → Bool) → List RunRow → Request
  heartbeat_request : String → String → String → ℕ → Option Json → Request
  release_request : String → String → String → Option Json → Request
  deadline_sweep overwork_sweep escalation_sweep : (RunRow → Bool) → ℕ → Request
  lapse_sweep : (String → ℕ) → (RunRow → Bool) → ℕ → Request
  purge_sweep : (RunRow → Bool) → ℕ → ℕ → Request
  append_request : String → String → List RunEvent → Option String → Request
  upload_request : String → String → String → StoredBlob → String → Request
  removal_request : List String → Request

-- The tables after an operation, without its answer.
abbrev pub tables : {A : Type 0} → Result (A × Db) → Result Db
tables (ok (a, db)) = ok db
tables (err e) = err e

unfoldable pub serve : Contracts → Limits → ℕ → Request → Db → Result Db
serve c limits now (start_request start queue strict) db =
    tables (start_run start queue now strict db)
serve c limits now (pause_request tenant run interrupt checkpoint worker) db =
    tables (pause c tenant run interrupt checkpoint worker now db)
serve c limits now (resume_request tenant run resolution answerer) db =
    tables (resume c tenant run resolution answerer now db)
serve c limits now (cancel_request tenant run reason canceller) db =
    tables (Ending.cancel c tenant run reason canceller now db)
serve c limits now (finish_request draw tenant run ending worker) db =
    tables (finish c draw tenant run ending worker now db)
serve c limits now (claim_request tenant request free lockable later) db =
    tables (claim c limits tenant request now free lockable later db)
serve c limits now (heartbeat_request tenant run worker lease_seconds checkpoint) db =
    tables (heartbeat limits.max_run_seconds tenant run worker lease_seconds checkpoint now db)
serve c limits now (release_request tenant run worker checkpoint) db =
    tables (release c tenant run worker checkpoint now db)
serve c limits now (deadline_sweep free limit) db =
    tables (time_out_past_deadline c free now limit db)
serve c limits now (overwork_sweep free limit) db =
    tables (time_out_overworked c limits.max_run_seconds free now limit db)
serve c limits now (escalation_sweep free limit) db = tables (escalate_overdue c free now limit db)
serve c limits now (lapse_sweep draw free limit) db =
    tables (requeue_lapsed c draw free now limit db)
serve c limits now (purge_sweep free before limit) db = ok (purge_ended free before limit db).1
serve c limits now (append_request tenant run events worker) db =
    tables (append_events tenant run events worker db)
serve c limits now (upload_request id tenant run blob mime) db =
    ok (add_artifact id tenant run blob mime now db).1
serve c limits now (removal_request ids) db = ok (remove_artifacts ids db)

-- The tables with nothing in them.
abbrev pub empty_db : Db
empty_db = record { runs = []; resolutions = []; events = []; artifacts = [] }

-- The tables that some sequence of requests, at any instants, leads to.
pub data Reach (c : Contracts) (limits : Limits) : Db → Type 0 where
  nothing : Reach c limits empty_db
  served :
      {db db' : Db} (now : ℕ) (request : Request)
      → Reach c limits db
      → serve c limits now request db ≡ ok db'
      → Reach c limits db'
