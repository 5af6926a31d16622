-- ===== src/Run/Store.antt =====
-- The tables as the run store's methods reach them: finding and locking a row, writing it back, the
-- artifacts of ended runs, and what a caller is answered.
use agent_runs.Base.{
  ℕ, ◌+◌, String, Bool, not, ◌&&◌, Option, none, some, List, [], ◌∷◌, map, str_eq, is_some,
  contains, if◌then◌else◌, find_first, Result, ok, err, not_found, ◌>>=◌, ◌>>◌, ◌*◌,
}
use agent_runs.Retry.{hours}
use agent_runs.Run.Status.{RunStatus, final}
use agent_runs.Run.Rows.{Json, RunStart, Interrupt, Resolution, AgentError, RunRow, ArtifactRow, Db}
use agent_runs.Run.Moves.{worked, fence}

-- The contracts' `RunRecord`, as `_record` fills it.
pub record RunRecord : Type 0 where
  pub start : RunStart
  pub open start use *
  pub status : RunStatus
  pub output : Option Json
  pub error : Option AgentError
  pub awaiting : Option Interrupt
  pub last_resolution : Option Resolution
  pub checkpoint : Option Json
  pub attempt : ℕ
  pub created_at : ℕ
  pub updated_at : ℕ
  pub worked_seconds : ℕ

-- `_record`
unfoldable pub record_of : RunRow → ℕ → RunRecord
unfolding worked
record_of row now = record {
  start = row.start;
  status = row.status;
  output = row.output;
  error = row.error;
  awaiting = row.awaiting;
  last_resolution = row.last_resolution;
  checkpoint = row.checkpoint;
  attempt = row.attempt;
  created_at = row.created_at;
  updated_at = row.updated_at;
  worked_seconds = worked row now;
}

-- `WHERE tenant_id = … AND run_id = …`
abbrev pub is_run : String → String → RunRow → Bool
is_run tenant run row = str_eq row.tenant_id tenant && str_eq row.run_id run

-- `_found`
unfoldable pub found : Db → String → String → Result RunRow
found db tenant run = elim (find_first (is_run tenant run) db.runs) [
  | none ↦ err not_found
  | some row ↦ ok row
]

-- `_locked`
unfoldable pub locked : Db → String → String → Option String → Result RunRow
unfolding found fence
locked db tenant run worker = do row ← found db tenant run; fence row worker; ok row

-- The row written back under its primary key.
unfoldable pub put_run : RunRow → List RunRow → List RunRow
put_run row [] = []
put_run row (r ∷ rs) = (if str_eq r.run_id row.run_id then row else r) ∷ put_run row rs

-- `ARTIFACT_RETENTION`: seven days.
abbrev pub artifact_retention : ℕ
artifact_retention = hours (7 * 24)

unfoldable pub expire_row : List String → ℕ → ArtifactRow → ArtifactRow
expire_row runs at a =
    if contains a.run_id runs && not (is_some a.expires_at)
    then record a { expires_at = some at }
    else a

-- `ArtifactStore.expire_with`
unfoldable pub expire_with : List String → ℕ → List ArtifactRow → List ArtifactRow
unfolding expire_row
expire_with runs at artifacts = map (expire_row runs at) artifacts

-- The ids of the rows that ended.
unfoldable pub ended_ids : List RunRow → List String
ended_ids [] = []
ended_ids (row ∷ rows) =
    let rest = ended_ids rows in if final row.status then row.run_id ∷ rest else rest

-- `_ended`
unfoldable pub ended : List RunRow → ℕ → Db → Db
unfolding ended_ids expire_with
ended rows now db = record db {
  artifacts = expire_with (ended_ids rows) (now + artifact_retention) db.artifacts;
}

-- The end of an operation on one locked row: the row is flushed, an ended run's artifacts start
-- their retention, and the caller is answered. With `changed` false nothing was written.
unfoldable pub answer_with : Db → ℕ → RunRow × Bool → (RunRecord × Bool) × Db
unfolding ended put_run record_of
answer_with db now (row, changed) = (
  (record_of row now, changed),
  if changed then ended (row ∷ []) now (record db { runs = put_run row db.runs }) else db,
)

-- An operation on one locked row: find it, change it, and answer.
unfoldable pub change_run :
    Db → String → String → ℕ → (RunRow → Result (RunRow × Bool)) → Result ((RunRecord × Bool) × Db)
unfolding locked answer_with
change_run db tenant run now change = do
  row ← locked db tenant run none
  changed ← change row
  ok (answer_with db now changed)
