-- ===== src/Ticker/Jobs.antt =====
-- What a pass of the ticker works on and meets, and its steps as transactions that may fail.
use agent_runs.Base.{ℕ, String, Bool, Option, List, if◌then◌else◌, Result, ok, err, ServiceError}
use agent_runs.Retry.{minutes}
use agent_runs.Run.Rows.{AgentError, RunRow, ArtifactRow, Db, Contracts}
use agent_runs.Run.Store.{RunRecord}
use agent_runs.Run.Queue.{Limits}
use agent_runs.Schedule.Rows.{ScheduleRow}
use agent_runs.Schedule.Store.{World}
use agent_runs.Outbox.{DeliveryRow, Outbox, Delivery, Attempt}

abbrev pub sweep_batch : ℕ
sweep_batch = 100

abbrev pub breaker_threshold : ℕ
breaker_threshold = 5

abbrev pub breaker_cooldown : ℕ
breaker_cooldown = minutes 2

-- All tables.
pub record Tables : Type 0 where
  pub db : Db
  pub schedules : List ScheduleRow
  pub outbox : Outbox

-- The transactions of a pass; a fire is numbered by its round, from the last.
pub data Step : Type 0 where
  firing : ℕ → Step
  deadlines overworking lapses escalations : Step
  holding settling dropping artifacts_going runs_going : Step

-- What the ticker is built with; `payload` and `delivery_id` are the envelope of an event and the stable
-- id of its delivery to a subscription.
pub record Ticker : Type 0 where
  pub contracts : Contracts
  pub limits : Limits
  pub world : World
  pub dead_retention : ℕ
  pub run_retention : Option ℕ
  pub payload : RunRecord → String → String
  pub delivery_id : RunRecord → String → String → String

-- What a pass meets.
pub record Pass : Type 0 where
  pub free_runs : Step → RunRow → Bool
  pub free_schedules : Step → ScheduleRow → Bool
  pub free_deliveries : Step → DeliveryRow → Bool
  pub free_artifacts : ArtifactRow → Bool
  pub draw : String → ℕ
  pub minted : ℕ → String
  pub outage : ℕ → Option AgentError
  pub attempt_of : Delivery → Attempt
  pub blob_deleted : ArtifactRow → Bool
  pub down : Step → Bool

-- `TickReport`
pub record TickReport : Type 0 where
  pub fired : ℕ
  pub timed_out : ℕ
  pub overworked : ℕ
  pub requeued : ℕ
  pub escalated : ℕ
  pub sent : ℕ
  pub dropped : ℕ
  pub purged : ℕ
  pub runs_purged : ℕ

abbrev pub empty_report : TickReport
empty_report = record {
  fired = 0;
  timed_out = 0;
  overworked = 0;
  requeued = 0;
  escalated = 0;
  sent = 0;
  dropped = 0;
  purged = 0;
  runs_purged = 0;
}

-- Why a pass stops midway: the database fails, or an exception of the service's own leaves a step.
pub data Halt : Type 0 where
  database_down : Halt
  crashed : ServiceError → Halt

-- What was committed when a step is done, or when the pass stopped.
pub data Progress {ℓ} (A : Type ℓ) : Type ℓ where
  halted : Halt → Tables → Progress A
  going : A → Tables → Progress A

abbrev pub committed {ℓ} : {A : Type ℓ} → Progress A → Tables
committed (halted why t) = t
committed (going answer t) = t

abbrev pub Job : Type 0 → Type 0
Job A = Tables → Progress A

-- The next step, unless the pass stopped.
unfoldable pub after : {A B : Type 0} → Progress A → (A → Job B) → Progress B
after (halted why t) next = halted why t
after (going answer t) next = next answer t

infixl 5 ◌>>=◌
-- The next step on what the one before it committed.
unfoldable pub ◌>>=◌ : {A B : Type 0} → Job A → (A → Job B) → Job B
unfolding after
(job >>= next) t = after (job t) next

unfoldable pub done : {A : Type 0} → A → Job A
done answer t = going answer t

-- A step in a transaction of its own, which is rolled back where it fails.
unfoldable pub transact : {A : Type 0} → Bool → (Tables → Result (A × Tables)) → Job A
transact down step t =
    if down
    then halted database_down t
    else elim (step t) [ err why ↦ halted (crashed why) t | ok left ↦ going left.0 left.1 ]
