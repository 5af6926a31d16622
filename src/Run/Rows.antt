-- ===== src/Run/Rows.antt =====
-- The rows of src/agent_runs/store/tables.py that the run store reads and writes, and the requests
-- of src/agent_runs/domain/runs.py. An instant and a duration are counts of microseconds; a JSON
-- value is its compact text with sorted keys.
use Prim.Native.String.{len}
use agent_runs.Base.{
  ℕ, String, Bool, Option, none, some, List, ◌*◌, ltb, Result, ok, too_large, raise_if, ◌>>◌,
}
use agent_runs.Run.Status.{RunStatus}

abbrev pub Json : Type 0
Json = String

-- The columns a start writes and nothing changes: the contracts' `RunStart`.
pub record RunStart : Type 0 where
  pub run_id : String
  pub tenant_id : String
  pub agent_id : String
  pub parent_run_id : Option String
  pub thread_id : Option String
  pub user_id : Option String
  pub workspace_id : Option String
  pub on_behalf_of : Option String
  pub input : Option Json
  pub deadline : Option ℕ
  pub timeout_seconds : Option ℕ
  pub idempotency_key : Option String
  pub agent_version : Option String
  pub priority : ℕ  -- counted from -1000, the least a start may ask for
  pub concurrency_key : Option String
  pub metadata : Json

-- The contracts' `Interrupt`: what a paused run waits on. An option is kept by its value.
pub record Interrupt : Type 0 where
  pub interrupt_id : String
  pub run_id : String
  pub tenant_id : String
  pub expects : Option Json
  pub options : List Json
  pub multiple : Bool
  pub tool_call : Option Json
  pub assignee : Option String
  pub deadline : Option ℕ
  pub escalate_to : Option String

-- A value an answer carries: a list by its items, any other JSON value by its text.
pub data Value : Type 0 where
  plain : Json → Value
  items : List Json → Value

pub data InterruptDecision : Type 0 where
  approve reject answered edit cancel : InterruptDecision

-- The contracts' `InterruptResolution`.
pub record Resolution : Type 0 where
  pub interrupt_id : String
  pub run_id : String
  pub decision : InterruptDecision
  pub answer : Value
  pub payload : Value
  pub reviewer : Option String
  pub remember : Option String
  pub comment : Option String
  pub resolved_at : ℕ

-- A text the service writes into an error, by the values it is formatted from.
pub data Message : Type 0 where
  said : String → Message
  retried_message : Message → ℕ → Message
  past_deadline past_interrupt : Option ℕ → Message
  overworked : ℕ → Option ℕ → Message
  lapsed_times : ℕ → Message

pub data ErrorCategory : Type 0 where
  timeout_category : ErrorCategory
  other_category : String → ErrorCategory

pub record AgentError : Type 0 where
  pub code : String
  pub category : ErrorCategory
  pub message : Message
  pub retryable : Bool
  pub source : Option String

-- `RunRow`
pub record RunRow : Type 0 where
  pub start : RunStart
  pub open start use *
  pub status : RunStatus
  pub output : Option Json
  pub error : Option AgentError
  pub awaiting : Option Interrupt
  pub last_resolution : Option Resolution
  pub checkpoint : Option Json
  pub assignee : Option String
  pub awaiting_deadline : Option ℕ
  pub attempt : ℕ
  pub lease_lapses : ℕ
  pub error_retries : ℕ
  pub worked_seconds : ℕ
  pub running_since : Option ℕ
  pub queued_at : Option ℕ
  pub available_at : Option ℕ
  pub lease_owner : Option String
  pub lease_expires_at : Option ℕ
  pub settled_by : Option String
  pub cancel_requested_at : Option ℕ
  pub cancel_reason : Option String
  pub cancelled_by : Option String
  pub created_at : ℕ
  pub updated_at : ℕ

-- `ResolutionRow`
pub record ResolutionRow : Type 0 where
  pub resolution_id : String
  pub run_id : String
  pub tenant_id : String
  pub interrupt : Interrupt
  pub resolution : Resolution
  pub attempt : ℕ
  pub recorded_at : ℕ

-- `RunEventRow`; `event` is the whole event.
pub record RunEventRow : Type 0 where
  pub run_id : String
  pub position : ℕ
  pub tenant_id : String
  pub attempt : ℕ
  pub sequence : ℕ
  pub event : Json

-- `ArtifactRow`
pub record ArtifactRow : Type 0 where
  pub artifact_id : String
  pub run_id : String
  pub tenant_id : String
  pub blob_key : String
  pub mime : String
  pub size : ℕ
  pub checksum : String
  pub created_at : ℕ
  pub expires_at : Option ℕ

-- The tables, as the transaction of one request or one sweep sees them.
pub record Db : Type 0 where
  pub runs : List RunRow
  pub resolutions : List ResolutionRow
  pub events : List RunEventRow
  pub artifacts : List ArtifactRow

-- `RunFinish`; its validator lets only an ending through.
pub record RunFinish : Type 0 where
  pub status : RunStatus
  pub output : Option Json
  pub error : Option AgentError

-- `Lease`
pub record Lease : Type 0 where
  pub run_id : String
  pub worker_id : String
  pub expires_at : ℕ
  pub remaining_seconds : Option ℕ
  pub cancel_requested : Bool

-- What the contracts package, the JSON Schema library and the package's ids decide and this code
-- calls: the transition check, whether an error of category TIMEOUT is retryable when nobody says,
-- whether a resolution answers an interrupt, whether a JSON text is a JSON Schema, whether a value
-- breaks a schema, and the stable id of an interrupt's answer.
pub record Contracts : Type 0 where
  pub can_become : RunStatus → RunStatus → Bool
  pub timeout_retryable : Bool
  pub resolves : Resolution → Interrupt → Bool
  pub is_schema : Json → Bool
  pub misfits : Json → Value → Bool
  pub stable_id : String → String → String

abbrev pub max_checkpoint_bytes : ℕ
max_checkpoint_bytes = 1024 * 1024

-- `bounded_payload`
unfoldable pub bounded_payload : Option Json → ℕ → Result (Unit {0})
bounded_payload none limit = ok tt
bounded_payload (some value) limit = raise_if (ltb limit (len value)) too_large

-- `bounded_checkpoint`
unfoldable pub bounded_checkpoint : Option Json → Result (Option Json)
bounded_checkpoint none = ok none
bounded_checkpoint (some checkpoint) =
    raise_if (ltb max_checkpoint_bytes (len checkpoint)) too_large >> ok (some checkpoint)
