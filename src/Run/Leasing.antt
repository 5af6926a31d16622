-- ===== src/Run/Leasing.antt =====
-- `RunStore.heartbeat` and `RunStore.release`: a worker keeping its lease, or letting go of it.
use agent_runs.Base.{
  ℕ, String, Bool, true, false, not, Option, none, some, is_some, if◌then◌else◌, Result, ok,
  lease_lost, raise_if, ◌>>=◌, ◌>>◌,
}
use agent_runs.Run.Status.{queued, running, status_eq}
use agent_runs.Run.Rows.{Json, RunRow, Lease, Db, Contracts, bounded_checkpoint}
use agent_runs.Run.Moves.{fence, settled, requeue, cancelled_instead, lease}
use agent_runs.Run.Store.{RunRecord, locked, put_run, change_run}

-- The progress a heartbeat saves.
unfoldable pub progressed : RunRow → Option Json → ℕ → RunRow
progressed row none now = row
progressed row (some checkpoint) now = record row { checkpoint = some checkpoint; updated_at = now }

unfoldable pub heartbeat_row :
    Option ℕ → RunRow → String → ℕ → Option Json → ℕ → Result (RunRow × Lease)
unfolding progressed lease
heartbeat_row max_run row worker lease_seconds checkpoint now = do
  raise_if (not (status_eq row.status running)) lease_lost
  ok (lease max_run (progressed row checkpoint now) worker lease_seconds now)

-- `RunStore.heartbeat`
unfoldable pub heartbeat :
    Option ℕ → String → String → String → ℕ → Option Json → ℕ → Db → Result (Lease × Db)
unfolding bounded_checkpoint
heartbeat max_run tenant run worker lease_seconds checkpoint now db = do
  kept ← bounded_checkpoint checkpoint
  row ← locked db tenant run (some worker)
  held ← heartbeat_row max_run row worker lease_seconds kept now
  ok (held.1, record db { runs = put_run held.0 db.runs })

-- Back on the queue, or cancelled where a cancel was asked for.
unfoldable pub released_or_cancelled :
    Contracts → RunRow → Option Json → ℕ → Option RunRow → Result RunRow
unfolding requeue
released_or_cancelled c row checkpoint now (some stopped) = ok stopped
released_or_cancelled c row checkpoint now none = do
  r ← requeue c row now none
  ok (if is_some checkpoint then record r { checkpoint = checkpoint } else r)

unfoldable pub release_row : Contracts → String → Option Json → ℕ → RunRow → Result (RunRow × Bool)
unfolding settled fence cancelled_instead released_or_cancelled
release_row c worker checkpoint now row =
    if settled row queued (some worker) then ok (row, false) else do
      fence row (some worker)
      stopped ← cancelled_instead c row now
      r ← released_or_cancelled c row checkpoint now stopped
      ok (record r { settled_by = some worker }, true)

-- `RunStore.release`
unfoldable pub release :
    Contracts → String → String → String → Option Json → ℕ → Db → Result ((RunRecord × Bool) × Db)
unfolding bounded_checkpoint
release c tenant run worker checkpoint now db = do
  kept ← bounded_checkpoint checkpoint
  change_run db tenant run now (release_row c worker kept now)
