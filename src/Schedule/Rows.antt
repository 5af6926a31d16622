-- ===== src/Schedule/Rows.antt =====
-- The rows of schedules and the requests on them. A schedule's metadata are its members, each a JSON
-- value by its text.
use agent_runs.Base.{ℕ, String, Bool, Option, none, some, List, [], ◌∷◌, str_eq, if◌then◌else◌}
use agent_runs.Run.Rows.{Json, AgentError}

abbrev pub Members : Type 0
Members = List (String × Json)

-- The contracts' `ScheduleSpec`.
pub record ScheduleSpec : Type 0 where
  pub tenant_id : String
  pub agent_id : String
  pub name : String
  pub cadence : String
  pub timezone : String
  pub input : Option Json
  pub on_behalf_of : String
  pub workspace_id : Option String
  pub enabled : Bool
  pub timeout_seconds : Option ℕ
  pub agent_version : Option String
  pub priority : ℕ
  pub concurrency_key : Option String
  pub metadata : Members

-- `ScheduleRow`
pub record ScheduleRow : Type 0 where
  pub schedule_id : String
  pub spec : ScheduleSpec
  pub input_sha256 : String
  pub created_by : String
  pub next_fire_at : Option ℕ
  pub last_fired_at : Option ℕ
  pub last_run_id : Option String
  pub consecutive_failures : ℕ
  pub last_error : Option AgentError
  pub retry_after : Option ℕ
  pub created_at : ℕ
  pub updated_at : ℕ

-- What the code calls besides the cron library: the contracts' validation of a spec, the digest of an
-- input, an instant as ISO text in UTC, a text as a JSON string, the text of a JSON string, and the
-- compact JSON of an object by its members.
pub record Formats : Type 0 where
  pub is_spec : ScheduleSpec → Bool
  pub sha256 : Option Json → String
  pub isoformat : ℕ → String
  pub quoted : String → Json
  pub text_of : Json → Option String
  pub json_of : Members → Json

-- The value under a name.
unfoldable pub member : String → Members → Option Json
member name [] = none
member name (m ∷ ms) = let later = member name ms in if str_eq m.0 name then some m.1 else later

-- `{**members, name: value}`
unfoldable pub put_member : String → Json → Members → Members
put_member name value [] = (name, value) ∷ []
put_member name value (m ∷ ms) =
    if str_eq m.0 name then (name, value) ∷ ms else m ∷ put_member name value ms

-- `{**old, **new}`
unfoldable pub merged : Members → Members → Members
unfolding put_member
merged old [] = old
merged old (m ∷ ms) = merged (put_member m.0 m.1 old) ms

-- `ScheduleUpdate`: a field that was not sent is `none`, and one that was sent as null `some none`.
pub record ScheduleUpdate : Type 0 where
  pub agent_id : Option (Option String)
  pub name : Option (Option String)
  pub cadence : Option (Option String)
  pub timezone : Option (Option String)
  pub input : Option (Option Json)
  pub workspace_id : Option (Option String)
  pub enabled : Option (Option Bool)
  pub timeout_seconds : Option (Option ℕ)
  pub agent_version : Option (Option String)
  pub priority : Option (Option ℕ)
  pub concurrency_key : Option (Option String)
  pub metadata : Option (Option Members)
