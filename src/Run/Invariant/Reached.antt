-- ===== src/Run/Invariant/Reached.antt =====
-- The invariant holds of every row of the tables that any sequence of requests leads to.
use agent_runs.Base.{
  ℕ, String, ◌≡◌, not, Option, none, List, arith, inl, inr, Option-cases, find_first, Result, ok,
  err, >>=-eq-ok,
}
use agent_runs.Run.Status.{Follows}
use agent_runs.Run.Rows.{Db, Contracts}
use agent_runs.Run.Queue.{Limits}
use agent_runs.Run.Retention.{purge_ended}
use agent_runs.Run.Service.{
  Request, start_request, pause_request, resume_request, cancel_request, finish_request,
  claim_request, heartbeat_request, release_request, deadline_sweep, overwork_sweep,
  escalation_sweep, lapse_sweep, purge_sweep, append_request, upload_request, removal_request,
  tables, serve, Reach, nothing, served,
}
use agent_runs.Run.Invariant.Store.{
  AllSound, pause-AllSound, resume-AllSound, cancel-AllSound, finish-AllSound, heartbeat-AllSound,
  release-AllSound,
}
use agent_runs.Run.Store.{locked}
use agent_runs.Base.{raise_if, unprocessable}
use agent_runs.Run.Events.{RunEvent, names_run, may_append, append_events}
use agent_runs.Run.Artifacts.{StoredBlob, checksum_of, has_content, add_artifact, remove_artifacts}
use agent_runs.Run.Invariant.Chosen.{
  start_run-AllSound, deadline-AllSound, overwork-AllSound, lapse-AllSound, escalation-AllSound,
  claim-AllSound, purge-AllSound,
}

tables_ok :
    {A : Type 0} (answer : Result (A × Db)) {db' : Db}
    → tables answer ≡ ok db'
    → (a : A) × (answer ≡ ok (a, db'))
tables_ok (ok (a, db)) e = (a, cc)
tables_ok (err why) e = absurd (ground arith)

append_events-runs :
    (tenant run : String) (events : List RunEvent) (worker : Option String) (db : Db)
    {answer : ℕ × ℕ} {db' : Db}
    → append_events tenant run events worker db ≡ ok (answer, db')
    → db.runs ≡ db'.runs
unfolding append_events
append_events-runs tenant run events worker db {answer} {db'} e =
    let (u, named, e1) =
      >>=-eq-ok (raise_if (not (names_run tenant run events)) unprocessable) _ e in
    let (row, there, e2) = >>=-eq-ok (locked db tenant run none) _ e1 in
    let (u', may, e3) = >>=-eq-ok (may_append row worker) _ e2 in ground arith

add_artifact-runs :
    (id tenant run : String) (blob : StoredBlob) (mime : String) (now : ℕ) (db : Db)
    → db.runs ≡ (add_artifact id tenant run blob mime now db).1.runs
unfolding add_artifact
add_artifact-runs id tenant run blob mime now db =
    elim (Option-cases (find_first (has_content run (checksum_of blob)) db.artifacts)) [
      | inl fresh ↦ ground arith
      | inr (row, there) ↦ ground arith
    ]

removed-AllSound : (ids : List String) (db : Db) → AllSound db → AllSound (remove_artifacts ids db)
unfolding remove_artifacts
removed-AllSound ids db v = v

pub serve-AllSound :
    (c : Contracts) (law : Follows c.can_become) (limits : Limits) (now : ℕ) (request : Request)
    (db db' : Db)
    → AllSound db
    → serve c limits now request db ≡ ok db'
    → AllSound db'
unfolding serve
serve-AllSound c law limits now (start_request start queue strict) db db' v e =
    start_run-AllSound c law now db v start queue strict (tables_ok _ e).1
serve-AllSound c law limits now (pause_request tenant run interrupt checkpoint worker) db db' v e =
    pause-AllSound c law now db v tenant run interrupt checkpoint worker (tables_ok _ e).1
serve-AllSound c law limits now (resume_request tenant run resolution answerer) db db' v e =
    resume-AllSound c law now db v tenant run resolution answerer (tables_ok _ e).1
serve-AllSound c law limits now (cancel_request tenant run reason canceller) db db' v e =
    cancel-AllSound c law now db v tenant run reason canceller (tables_ok _ e).1
serve-AllSound c law limits now (finish_request draw tenant run ending worker) db db' v e =
    finish-AllSound c law now db v draw tenant run ending worker (tables_ok _ e).1
serve-AllSound c law limits now (claim_request tenant request free lockable later) db db' v e =
    claim-AllSound c law now db v limits tenant request free lockable later (tables_ok _ e).1
serve-AllSound c law limits now (heartbeat_request tenant run worker lease_seconds checkpoint) db
      db' v e =
    heartbeat-AllSound c law now db v limits.max_run_seconds tenant run worker lease_seconds
      checkpoint (tables_ok _ e).1
serve-AllSound c law limits now (release_request tenant run worker checkpoint) db db' v e =
    release-AllSound c law now db v tenant run worker checkpoint (tables_ok _ e).1
serve-AllSound c law limits now (deadline_sweep free limit) db db' v e =
    deadline-AllSound c law now db v free limit (tables_ok _ e).1
serve-AllSound c law limits now (overwork_sweep free limit) db db' v e =
    overwork-AllSound c law now db v limits.max_run_seconds free limit (tables_ok _ e).1
serve-AllSound c law limits now (escalation_sweep free limit) db db' v e =
    escalation-AllSound c law now db v free limit (tables_ok _ e).1
serve-AllSound c law limits now (lapse_sweep draw free limit) db db' v e =
    lapse-AllSound c law now db v draw free limit (tables_ok _ e).1
serve-AllSound c law limits now (purge_sweep free before limit) db db' v e =
    let same : (purge_ended free before limit db).1 ≡ db' = cc in
    rw (← same) (purge-AllSound c law now db v free before limit)
serve-AllSound c law limits now (append_request tenant run events worker) db db' v e =
    rw (← (append_events-runs tenant run events worker db (tables_ok _ e).1)) v
serve-AllSound c law limits now (upload_request id tenant run blob mime) db db' v e =
    let same : (add_artifact id tenant run blob mime now db).1 ≡ db' = cc in
    rw (← same) (rw (← (add_artifact-runs id tenant run blob mime now db)) v)
serve-AllSound c law limits now (removal_request ids) db db' v e =
    let same : remove_artifacts ids db ≡ db' = cc in rw (← same) (removed-AllSound ids db v)

-- Where `can_become` is the documented lifecycle, every run in the tables that any sequence of
-- requests leads to from empty tables, at any instants, is sound: its columns agree with its status,
-- and its retries, lapses and attempts keep their bounds.
pub Reach-AllSound :
    (c : Contracts)
    → Follows c.can_become
    → (limits : Limits) (db : Db) → Reach c limits db
    → AllSound db
Reach-AllSound c law limits db nothing = tt
Reach-AllSound c law limits db (served {db = db0} now request before e) =
    serve-AllSound c law limits now request db0 db (Reach-AllSound c law limits db0 before) e
