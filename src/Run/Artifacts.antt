-- ===== src/Run/Artifacts.antt =====
-- `ArtifactStore` of src/agent_runs/store/artifacts.py: the rows of uploaded artifacts. The bytes are in
-- the blob store; what a put of it answered is given.
use Prim.Native.String.{◌++◌}
use agent_runs.Base.{
  ℕ, String, Bool, true, false, not, ◌&&◌, none, some, List, ◌∷◌, str_eq, holds, ltb, contains,
  take, select, find_first, sort_by, Result, ok, err, not_found,
}
use agent_runs.Run.Rows.{ArtifactRow, Db}

-- `StoredBlob`
pub record StoredBlob : Type 0 where
  pub key : String
  pub size : ℕ
  pub sha256 : String

-- The contracts' `ArtifactRef`, as `artifact_ref` fills it.
pub record ArtifactRef : Type 0 where
  pub artifact_id : String
  pub uri : String
  pub mime_type : String
  pub checksum : String
  pub size_bytes : ℕ
  pub created_at : ℕ
  pub run_id : String

-- `artifact_ref`
unfoldable pub artifact_ref : ArtifactRow → ArtifactRef
artifact_ref row = record {
  artifact_id = row.artifact_id;
  uri = "/v1/artifacts/" ++ row.artifact_id;
  mime_type = row.mime;
  checksum = row.checksum;
  size_bytes = row.size;
  created_at = row.created_at;
  run_id = row.run_id;
}

-- `checksum`: of a blob, as a row keeps it.
abbrev pub checksum_of : StoredBlob → String
checksum_of blob = "sha256:" ++ blob.sha256

-- The unique constraint on the run and the checksum.
abbrev pub has_content : String → String → ArtifactRow → Bool
has_content run checksum row = str_eq row.run_id run && str_eq row.checksum checksum

-- `ArtifactStore.add`: the row, and whether it is new.
unfoldable pub add_artifact :
    String → String → String → StoredBlob → String → ℕ → Db → (ArtifactRow × Bool) × Db
add_artifact id tenant run blob mime now db =
    elim (find_first (has_content run (checksum_of blob)) db.artifacts) [
      | some row ↦ ((row, false), db)
      | none ↦
          let row : ArtifactRow = record {
            artifact_id = id;
            run_id = run;
            tenant_id = tenant;
            blob_key = blob.key;
            mime = mime;
            size = blob.size;
            checksum = checksum_of blob;
            created_at = now;
            expires_at = none;
          } in
          ((row, true), record db { artifacts = row ∷ db.artifacts })
    ]

-- `ArtifactStore.get`
unfoldable pub get_artifact : String → String → Db → Result ArtifactRow
get_artifact tenant id db =
    elim (find_first (λ a. str_eq a.tenant_id tenant && str_eq a.artifact_id id) db.artifacts) [
      | none ↦ err not_found
      | some row ↦ ok row
    ]

-- `ArtifactStore.expired`; `free` says which rows no other ticker holds.
unfoldable pub expired_artifacts :
    (ArtifactRow → Bool) → ℕ → ℕ → List ArtifactRow → List ArtifactRow
expired_artifacts free now limit rows = take limit (
    sort_by (λ a b. holds a.expires_at (λ x. holds b.expires_at (λ y. ltb x y)))
      (select (λ a. holds a.expires_at (λ at. ltb at now) && free a) rows))

-- `ArtifactStore.remove`
unfoldable pub remove_artifacts : List String → Db → Db
remove_artifacts ids db = record db {
  artifacts = select (λ a. not (contains a.artifact_id ids)) db.artifacts;
}
