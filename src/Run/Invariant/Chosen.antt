-- ===== src/Run/Invariant/Chosen.antt =====
-- The operations that find or choose their rows keep the invariant.
use agent_runs.Base.{
  ℕ, suc, String, ◌≡◌, Bool, true, not, Option, none, some, List, [], ◌∷◌, arith, All-weaken,
  All-Memᴰ, Bool-cases, inl, inr, Option-cases, contains, truthy, find_first, length, map_result,
  ◌⊎◌, ok, >>=-eq-ok,
}
use agent_runs.Run.Status.{queued, running, Follows}
use agent_runs.Run.Rows.{RunStart, RunRow, Lease, Db, Contracts}
use agent_runs.Run.Store.{RunRecord, put_run}
use agent_runs.Run.Starts.{has_key, new_row, taken, existing, found_by_id, found_by_key, start_run}
use agent_runs.Run.Queue.{Limits, ClaimRequest, claimable}
use agent_runs.Run.Claim.{ClaimLock, choose, take_row, claim_chosen, claim}
use agent_runs.Run.Choice.{IsChosen, choose-IsChosen}
use agent_runs.Run.Sweeps.{
  swept, sweep_end, past_its_deadline, deadline_row, time_out_past_deadline, is_overworked,
  overworked_row, time_out_overworked, has_lapsed, lapsed_row, requeue_lapsed, is_overdue,
  overdue_row, escalate_overdue,
}
use agent_runs.Run.Retention.{purged_ids, purge_ended}
use agent_runs.Run.Keeps.{put_run-All, select-All, sweep-All}
use agent_runs.Run.Invariant.{IsSound}
use agent_runs.Run.Invariant.Rest.{
  new_row-IsSound, take_row-IsSound, deadline_row-IsSound, overworked_row-IsSound,
  lapsed_row-IsSound, overdue_row-IsSound,
}
use agent_runs.Run.Invariant.Store.{AllSound}

found_by_id-same :
    (start : RunStart) (now : ℕ) (db : Db) {answer : RunRecord × Bool} {db' : Db}
    → found_by_id start now db ≡ ok (answer, db')
    → db' ≡ db
unfolding found_by_id
found_by_id-same start now db e = ground arith

found_by_key-same :
    (start : RunStart) (queue : Bool) (now : ℕ) (strict : Bool) (db : Db) (row : RunRow)
    {answer : RunRecord × Bool} {db' : Db}
    → found_by_key start queue now strict db row ≡ ok (answer, db')
    → db' ≡ db
unfolding found_by_key
found_by_key-same start queue now strict db row e = ground arith

existing-same :
    (start : RunStart) (queue : Bool) (now : ℕ) (strict : Bool) (db : Db)
    {answer : RunRecord × Bool} {db' : Db}
    → existing start queue now strict db ≡ ok (answer, db')
    → db' ≡ db
unfolding existing
existing-same start queue now strict db {answer} {db'} e =
    elim (Bool-cases (truthy start.idempotency_key)) [
      | inl t ↦
          elim (Option-cases (find_first (has_key start.tenant_id start.idempotency_key) db.runs)) [
            | inl missing ↦
                let done : found_by_id start now db ≡ ok (answer, db') = ground arith in
                found_by_id-same start now db done
            | inr (row, there) ↦
                let done : found_by_key start queue now strict db row ≡ ok (answer, db') =
                  ground arith in
                found_by_key-same start queue now strict db row done
          ]
      | inr f ↦
          let done : found_by_id start now db ≡ ok (answer, db') = ground arith in
          found_by_id-same start now db done
    ]

-- A start that finds a run changes nothing; one that does not adds a new row.
start_run-runs :
    (start : RunStart) (queue : Bool) (now : ℕ) (strict : Bool) (db : Db)
    {answer : RunRecord × Bool} {db' : Db}
    → start_run start queue now strict db ≡ ok (answer, db')
    → (db'.runs ≡ db.runs) ⊎ (db'.runs ≡ new_row start queue now ∷ db.runs)
unfolding start_run
start_run-runs start queue now strict db {answer} {db'} e =
    elim (Bool-cases (taken start db.runs)) [
      | inl t ↦
          let same : db' ≡ db =
            let done : existing start queue now strict db ≡ ok (answer, db') = ground arith in
            existing-same start queue now strict db done in
          inl (rw same)
      | inr f ↦ inr (ground arith)
    ]

claimable_queued :
    (limits : Limits) (tenant : Option String) (request : ClaimRequest) (now : ℕ)
    (rows : List RunRow) (row : RunRow)
    → claimable limits tenant request now rows row ≡ true
    → row.status ≡ queued
unfolding claimable
claimable_queued limits tenant request now rows row e = ground arith

lapsed_running : (now : ℕ) (row : RunRow) → has_lapsed now row ≡ true → row.status ≡ running
unfolding has_lapsed
lapsed_running now row e = ground arith

claim_none :
    (c : Contracts) (limits : Limits) (request : ClaimRequest) (now : ℕ) (db : Db)
    {answer : Option (RunRecord × Lease)} {db' : Db}
    → claim_chosen c limits request now db none ≡ ok (answer, db')
    → db ≡ db'
unfolding claim_chosen
claim_none c limits request now db e = ground arith

module _ (c : Contracts) (law : Follows c.can_become) (now : ℕ) (db : Db) (v : AllSound db) where
  pub start_run-AllSound :
      (start : RunStart) (queue strict : Bool) {answer : RunRecord × Bool} {db' : Db}
      → start_run start queue now strict db ≡ ok (answer, db')
      → AllSound db'
  start_run-AllSound start queue strict e = elim (start_run-runs start queue now strict db e) [
    | inl same ↦ rw same v
    | inr added ↦ rw added (new_row-IsSound start queue now, v)
  ]

  claim_chosen-AllSound :
      (limits : Limits) (request : ClaimRequest) (row : RunRow)
      {answer : Option (RunRecord × Lease)} {db' : Db}
      → IsSound row
      → row.status ≡ queued
      → claim_chosen c limits request now db (some row) ≡ ok (answer, db')
      → AllSound db'
  unfolding claim_chosen
  claim_chosen-AllSound limits request row {answer} {db'} s q e =
      let (held, taken, rest) = >>=-eq-ok (take_row c limits request row now) _ e in
      let runs : db'.runs ≡ put_run held.0 db.runs = ground arith in
      rw runs (
        put_run-All IsSound held.0 db.runs (take_row-IsSound c law row s now limits request q taken)
          v)

  pub deadline-AllSound :
      (free : RunRow → Bool) (limit : ℕ) {moved : List RunRecord} {db' : Db}
      → time_out_past_deadline c free now limit db ≡ ok (moved, db')
      → AllSound db'
  unfolding time_out_past_deadline
  deadline-AllSound free limit {moved} {db'} e =
      let (rows, made, rest) =
        >>=-eq-ok
          (map_result (deadline_row c now)
            (swept free (past_its_deadline now) (λ r. r.deadline) limit db.runs))
          _ e in
      let same : (sweep_end rows now db).1 ≡ db' = cc in
      rw (← same) (
        sweep-All IsSound (deadline_row c now) free (past_its_deadline now) (λ r. r.deadline) limit
          now db (λ row r p m. deadline_row-IsSound c law row p.0 now m) v made)

  pub overwork-AllSound :
      (max_run : Option ℕ) (free : RunRow → Bool) (limit : ℕ) {moved : List RunRecord} {db' : Db}
      → time_out_overworked c max_run free now limit db ≡ ok (moved, db')
      → AllSound db'
  unfolding time_out_overworked
  overwork-AllSound max_run free limit {moved} {db'} e =
      let (rows, made, rest) =
        >>=-eq-ok
          (map_result (overworked_row c max_run now)
            (swept free (is_overworked max_run now) (λ r. r.running_since) limit db.runs))
          _ e in
      let same : (sweep_end rows now db).1 ≡ db' = cc in
      rw (← same) (
        sweep-All IsSound (overworked_row c max_run now) free (is_overworked max_run now)
          (λ r. r.running_since) limit now db
          (λ row r p m. overworked_row-IsSound c law row p.0 now max_run m) v made)

  pub lapse-AllSound :
      (draw : String → ℕ) (free : RunRow → Bool) (limit : ℕ) {moved : List RunRecord} {db' : Db}
      → requeue_lapsed c draw free now limit db ≡ ok (moved, db')
      → AllSound db'
  unfolding requeue_lapsed
  lapse-AllSound draw free limit {moved} {db'} e =
      let (rows, made, rest) =
        >>=-eq-ok
          (map_result (lapsed_row c draw now)
            (swept free (has_lapsed now) (λ r. r.lease_expires_at) limit db.runs))
          _ e in
      let same : (sweep_end rows now db).1 ≡ db' = cc in
      rw (← same) (
        sweep-All IsSound (lapsed_row c draw now) free (has_lapsed now) (λ r. r.lease_expires_at)
          limit now db
          (λ row r p m. lapsed_row-IsSound c law row p.0 now draw (lapsed_running now row p.1) m) v
          made)

  pub escalation-AllSound :
      (free : RunRow → Bool) (limit : ℕ) {moved : List RunRecord} {db' : Db}
      → escalate_overdue c free now limit db ≡ ok (moved, db')
      → AllSound db'
  unfolding escalate_overdue
  escalation-AllSound free limit {moved} {db'} e =
      let (rows, made, rest) =
        >>=-eq-ok
          (map_result (overdue_row c now)
            (swept free (is_overdue now) (λ r. r.awaiting_deadline) limit db.runs))
          _ e in
      let same : (sweep_end rows now db).1 ≡ db' = cc in
      rw (← same) (
        sweep-All IsSound (overdue_row c now) free (is_overdue now) (λ r. r.awaiting_deadline) limit
          now db (λ row r p m. overdue_row-IsSound c law row p.0 now m) v made)

  pub claim-AllSound :
      (limits : Limits) (tenant : Option String) (request : ClaimRequest) (free : RunRow → Bool)
      (lockable : ClaimLock → Bool) (later : List RunRow) {answer : Option (RunRecord × Lease)}
      {db' : Db}
      → claim c limits tenant request now free lockable later db ≡ ok (answer, db')
      → AllSound db'
  unfolding claim
  claim-AllSound limits tenant request free lockable later {answer} {db'} e =
      elim (Option-cases
        (choose (suc (length db.runs)) limits tenant request now free lockable later db.runs [])) [
          | inl out ↦ absurd (ground arith)
          | inr (none, none_left) ↦
              let done : claim_chosen c limits request now db none ≡ ok (answer, db') =
                ground arith in
              rw (← (claim_none c limits request now db done)) v
          | inr (some row, found) ↦
              let chosen : IsChosen limits tenant request now free lockable later db.runs row =
                choose-IsChosen limits tenant request now free lockable later db.runs _ [] found in
              let done : claim_chosen c limits request now db (some row) ≡ ok (answer, db') =
                ground arith in
              claim_chosen-AllSound limits request row (All-Memᴰ IsSound db.runs v chosen.0)
                (claimable_queued limits tenant request now db.runs row chosen.1) done
        ]

  pub purge-AllSound :
      (free : RunRow → Bool) (before limit : ℕ) → AllSound (purge_ended free before limit db).1
  unfolding purge_ended
  purge-AllSound free before limit =
      All-weaken _ IsSound _ (λ r both. both.0)
        (select-All IsSound (λ r. not (contains r.run_id (purged_ids free before limit db))) db.runs
          v)
