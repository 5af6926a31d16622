-- ===== src/Run/Within.antt =====
-- A claim keeps the limits it counts for: the RUNNING runs of a key and the runs a tenant's workers hold.
use mathlib.Core.Path.{subst, sym}
use mathlib.Core.List.{Memᴰ}
use agent_runs.Base.{
  ℕ, suc, ◌+◌, ◌≤◌, ◌<◌, String, ◌≡◌, ◌≢◌, Bool, true, false, ◌&&◌, Option, none, some, List, [],
  ◌∷◌, arith, refl, All, All-Memᴰ, Bool-cases, Option-cases, inl, inr, length, count_if, str_eq,
  opt_eq, eq_iff, opt_eq_iff, if◌then◌else◌, ok, >>=-eq-ok, ap, ◌∙◌,
}
use agent_runs.Run.Status.{running, status_eq}
use agent_runs.Run.Rows.{RunRow, Lease, Db, Contracts}
use agent_runs.Run.Moves.{move, moved, lease}
use agent_runs.Run.Store.{RunRecord, record_of, put_run}
use agent_runs.Run.Queue.{Limits, ClaimRequest, is_leased, running_with_key, held_by_tenant}
use agent_runs.Run.Claim.{
  ClaimLock, tenant_has_room, key_has_room, choose, take_row, claim_chosen, claim,
}
use agent_runs.Run.Choice.{IsChosen, choose-IsChosen}

-- The primary key: no two rows have one id.
abbrev pub AllKeyed : List RunRow → Type 0
AllKeyed [] = Unit
AllKeyed (x ∷ xs) = All (λ y. x.run_id ≢ y.run_id) xs × AllKeyed xs

-- No more than a cap, where there is one.
abbrev pub IsWithinCap : Option ℕ → ℕ → Type 0
IsWithinCap none n = Unit
IsWithinCap (some most) n = n ≤ most

-- A row whose id is not there is not written.
put_run-other :
    (held : RunRow) (rows : List RunRow)
    → All (λ y. held.run_id ≢ y.run_id) rows
    → put_run held rows ≡ rows
unfolding put_run
put_run-other held [] all = refl
put_run-other held (x ∷ xs) all =
    let apart : str_eq x.run_id held.run_id ≡ false =
      ground (arith, all.0, eq_iff x.run_id held.run_id) in
    rw (apart, put_run-other held xs all.1) refl

-- Writing one row back adds at most that row to a count it was not in.
count_if-put_run :
    (test : RunRow → Bool) (held row : RunRow) (rows : List RunRow)
    → AllKeyed rows
    → Memᴰ row rows
    → held.run_id ≡ row.run_id
    → count_if test (put_run held rows) ≤ count_if test rows + (if test held then 1 else 0)
unfolding put_run
count_if-put_run test held row [] keyed m same = elim m [ ]
count_if-put_run test held row (x ∷ xs) keyed (Memᴰ.head e) same =
    let own : held.run_id ≡ x.run_id = rw same (rw e refl) in
    let others =
      subst (λ (id : String). All (λ (y : RunRow). id ≢ y.run_id) xs) (sym own) keyed.0 in
    let here : str_eq x.run_id held.run_id ≡ true = (eq_iff x.run_id held.run_id).1 (sym own) in
    rw (here, put_run-other held xs others) (ground arith)
count_if-put_run test held row (x ∷ xs) keyed (Memᴰ.tail m) same =
    let apart : x.run_id ≢ row.run_id =
      All-Memᴰ (λ (y : RunRow). x.run_id ≢ y.run_id) xs keyed.0 m in
    let elsewhere : str_eq x.run_id held.run_id ≡ false =
      ground (arith, apart, same, eq_iff x.run_id held.run_id) in
    rw elsewhere (omega (arith, count_if-put_run test held row xs keyed.1 m same))

take_row-start :
    (c : Contracts) (limits : Limits) (request : ClaimRequest) (row : RunRow) (now : ℕ)
    {taken : RunRow × Lease}
    → take_row c limits request row now ≡ ok taken
    → taken.0.start ≡ row.start
unfolding take_row move moved lease
take_row-start c limits request row now {taken} e =
    elim (Bool-cases (c.can_become row.status running)) [
      | inl may ↦ ground (arith, may)
      | inr never ↦ absurd (ground (arith, never))
    ]

at_most_one : (b : Bool) → (if b then 1 else 0) ≤ 1
at_most_one true = omega arith
at_most_one false = omega arith

below :
    {after before step limit : ℕ}
    → after ≤ before + step
    → step ≤ 1
    → before < limit
    → after ≤ limit
below grows one room = omega (arith, grows, one, room)

room-key :
    (limits : Limits) (lockable : ClaimLock → Bool) (rows : List RunRow) (row : RunRow)
    {key : String}
    → row.concurrency_key ≡ some key
    → key_has_room limits lockable rows row ≡ true
    → running_with_key row.tenant_id key rows < limits.concurrency_per_key
unfolding key_has_room
room-key limits lockable rows row keyed room = ground (arith, keyed, room)

room-tenant :
    (limits : Limits) (lockable : ClaimLock → Bool) (rows : List RunRow) (row : RunRow) {most : ℕ}
    → limits.max_running_per_tenant ≡ some most
    → tenant_has_room limits lockable rows row ≡ true
    → held_by_tenant row.tenant_id rows < most
unfolding tenant_has_room
room-tenant limits lockable rows row limited room = ground (arith, limited, room)

module _ (c : Contracts) (limits : Limits) (tenant : Option String) (request : ClaimRequest)
    (now : ℕ) (free : RunRow → Bool) (lockable : ClaimLock → Bool) (later : List RunRow) where
  within-key :
      (name key : String) (rows : List RunRow) (row r : RunRow)
      → AllKeyed later
      → Memᴰ row later
      → IsChosen limits tenant request now free lockable later rows row
      → r.start ≡ row.start
      → running_with_key name key later ≤ limits.concurrency_per_key
      → running_with_key name key (put_run r later) ≤ limits.concurrency_per_key
  unfolding running_with_key
  within-key name key rows row r keyed there chosen start fits =
      let test = λ (x : RunRow).
        status_eq x.status running
        && (str_eq x.tenant_id name && opt_eq x.concurrency_key (some key)) in
      let count = count_if-put_run test r row later keyed there (ap (λ s. s.run_id) start) in
      elim (Bool-cases (str_eq r.tenant_id name && opt_eq r.concurrency_key (some key))) [
        | inl counted ↦
            let tenant_same : row.tenant_id ≡ name =
              ap (λ s. s.tenant_id) (sym start)
              ∙ (eq_iff r.tenant_id name).0 (ground (arith, counted)) in
            let key_same : row.concurrency_key ≡ some key =
              ap (λ s. s.concurrency_key) (sym start)
              ∙ (opt_eq_iff r.concurrency_key (some key)).0 (ground (arith, counted)) in
            let room =
              subst (λ t. running_with_key t key later < limits.concurrency_per_key) tenant_same
                (room-key limits lockable later row key_same chosen.4) in
            below count (at_most_one (test r)) room
        | inr other ↦ ground (arith, count, other, fits)
      ]

  within-tenant :
      (name : String) (most : ℕ) (rows : List RunRow) (row r : RunRow)
      → AllKeyed later
      → Memᴰ row later
      → IsChosen limits tenant request now free lockable later rows row
      → r.start ≡ row.start
      → limits.max_running_per_tenant ≡ some most
      → held_by_tenant name later ≤ most
      → held_by_tenant name (put_run r later) ≤ most
  unfolding held_by_tenant
  within-tenant name most rows row r keyed there chosen start limited few =
      let test = λ (x : RunRow). is_leased x && str_eq x.tenant_id name in
      let count = count_if-put_run test r row later keyed there (ap (λ s. s.run_id) start) in
      elim (Bool-cases (str_eq r.tenant_id name)) [
        | inl counted ↦
            let tenant_same : row.tenant_id ≡ name =
              ap (λ s. s.tenant_id) (sym start) ∙ (eq_iff r.tenant_id name).0 counted in
            let room =
              subst (λ t. held_by_tenant t later < most) tenant_same
                (room-tenant limits lockable later row limited chosen.3) in
            below count (at_most_one (test r)) room
        | inr other ↦ ground (arith, count, other, few)
      ]

  within-cap :
      (name : String) (rows : List RunRow) (row r : RunRow)
      → AllKeyed later
      → Memᴰ row later
      → IsChosen limits tenant request now free lockable later rows row
      → r.start ≡ row.start
      → (cap : Option ℕ) → limits.max_running_per_tenant ≡ cap
      → IsWithinCap cap (held_by_tenant name later)
      → IsWithinCap cap (held_by_tenant name (put_run r later))
  within-cap name rows row r keyed there chosen start none uncapped few = tt
  within-cap name rows row r keyed there chosen start (some most) capped few =
      within-tenant name most rows row r keyed there chosen start capped few

  module _ (db : Db) where
    -- A claim that takes a run writes one row, the one it chose, with its start, and answers it.
    claim_parts :
        {found : RunRecord} {held : Lease} {db' : Db}
        → claim c limits tenant request now free lockable later db ≡ ok (some (found, held), db')
        → (row : RunRow) × (r : RunRow) × IsChosen limits tenant request now free lockable later
            db.runs row
          × (r.start ≡ row.start)
          × (found ≡ record_of r now)
          × (db'.runs ≡ put_run r db.runs)
    unfolding claim claim_chosen
    claim_parts {found} {held} {db'} e =
        elim (Option-cases (
          choose (suc (length db.runs)) limits tenant request now free lockable later db.runs [])) [
            | inl out ↦ absurd (ground arith)
            | inr (none, none_left) ↦ absurd (ground arith)
            | inr (some row, chosen) ↦
                let done : claim_chosen c limits request now db (some row)
                    ≡ ok (some (found, held), db') =
                  ground arith in
                let (taken, made, rest) = >>=-eq-ok (take_row c limits request row now) _ done in
                (
                  row,
                  taken.0,
                  choose-IsChosen limits tenant request now free lockable later db.runs _ [] chosen,
                  take_row-start c limits request row now made,
                  ground arith,
                  ground arith,
                )
          ]

    -- A claim writes the run it answers, and keeps every limit in the rows it counted by, which may be
    -- later ones than its query saw: if at most as many RUNNING runs of a tenant share a key there as
    -- the limit allows, so it is with the run written there; and if a tenant's workers hold no more
    -- runs there than its cap, where one is set, so it is for them. The ids of those rows differ, and
    -- the runs that the query could lock are still there.
    pub claim_within :
        (name key : String) {found : RunRecord} {held : Lease} {db' : Db}
        → AllKeyed later
        → ((row : RunRow) → Memᴰ row db.runs → free row ≡ true → Memᴰ row later)
        → running_with_key name key later ≤ limits.concurrency_per_key
        → IsWithinCap limits.max_running_per_tenant (held_by_tenant name later)
        → claim c limits tenant request now free lockable later db ≡ ok (some (found, held), db')
        → (r : RunRow) × (found ≡ record_of r now)
          × (db'.runs ≡ put_run r db.runs)
          × (running_with_key name key (put_run r later) ≤ limits.concurrency_per_key)
          × IsWithinCap limits.max_running_per_tenant (held_by_tenant name (put_run r later))
    claim_within name key keyed stays fits few e =
        let (row, r, chosen, start, answered, written) = claim_parts e in
        let there = stays row chosen.0 chosen.2 in
        (
          r,
          answered,
          written,
          within-key name key db.runs row r keyed there chosen start fits,
          within-cap name db.runs row r keyed there chosen start limits.max_running_per_tenant refl
              few,
        )
