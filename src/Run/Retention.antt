-- ===== src/Run/Retention.antt =====
-- `RunStore.purge_ended`: deleting the runs that ended before an instant.
use agent_runs.Base.{
  ℕ, String, Bool, not, ◌&&◌, some, List, map, ltb, str_eq, contains, select, length, is_some,
  find_first,
}
use agent_runs.Run.Status.{final}
use agent_runs.Run.Rows.{RunRow, ArtifactRow, Db}
use agent_runs.Run.Sweeps.{swept}

-- `kept.exists()`: some artifact of the run is still there.
unfoldable pub has_artifacts : List ArtifactRow → RunRow → Bool
has_artifacts artifacts row = is_some (find_first (λ a. str_eq a.run_id row.run_id) artifacts)

unfoldable pub is_purgeable : List ArtifactRow → ℕ → RunRow → Bool
unfolding has_artifacts
is_purgeable artifacts before row =
    final row.status && (ltb row.updated_at before && not (has_artifacts artifacts row))

-- The ids of the runs that go.
unfoldable pub purged_ids : (RunRow → Bool) → ℕ → ℕ → Db → List String
unfolding swept is_purgeable
purged_ids free before limit db =
    map (λ r. r.run_id)
      (swept free (is_purgeable db.artifacts before) (λ r. some r.updated_at) limit db.runs)

-- `purge_ended`: the runs go, with their resolutions and, by the foreign key's cascade, their events.
unfoldable pub purge_ended : (RunRow → Bool) → ℕ → ℕ → Db → ℕ × Db
unfolding purged_ids
purge_ended free before limit db =
    let gone = purged_ids free before limit db in
    (
      length gone,
      record db {
        runs = select (λ r. not (contains r.run_id gone)) db.runs;
        resolutions = select (λ r. not (contains r.run_id gone)) db.resolutions;
        events = select (λ e. not (contains e.run_id gone)) db.events;
      },
    )
