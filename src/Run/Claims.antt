-- ===== src/Run/Claims.antt =====
-- What `RunStore.claim` promises: it always answers, it takes only what it may, and it goes without
-- only when there is nothing it may take.
use mathlib.Core.List.{Memᴰ}
use mathlib.Core.List.Memᴰ
use agent_runs.Base.{
  ℕ, zero, suc, ◌<◌, String, ◌≡◌, ◌⊎◌, Bool, true, false, ◌&&◌, Option, none, some, List, [], ◌∷◌,
  arith, Bool-cases, Option-cases, inl, inr, refl, All, select, length, count_if, >>=-eq-ok, str_eq,
  opt_eq, eq_iff, opt_eq_iff, ok,
}
use agent_runs.Run.Status.{queued, running}
use agent_runs.Run.Rows.{RunRow, Lease, Db, Contracts}
use agent_runs.Run.Moves.{move, moved, lease}
use agent_runs.Run.Store.{record_of, put_run}
use agent_runs.Run.Queue.{
  Limits, ClaimRequest, Passed, tenant_full, key_full, not_passed, none_passed, claimable,
  goes_before, first_by, next_queued,
}
use agent_runs.Run.Claim.{
  ClaimLock, tenant_has_room, key_has_room, choose, take_row, claim_chosen, claim,
}
use agent_runs.Run.Choice.{is_candidate, choose_total, IsChosen, choose-IsChosen}

first_by-none :
    (before : RunRow → RunRow → Bool) (rows : List RunRow) → first_by before rows ≡ none → rows ≡ []
unfolding first_by
first_by-none before [] e = refl
first_by-none before (x ∷ xs) e = elim (Option-cases (first_by before xs)) [
  | inl nothing ↦ absurd (ground arith)
  | inr (best, found) ↦ elim (Bool-cases (before best x)) [
    | inl t ↦ absurd (ground arith)
    | inr f ↦ absurd (ground arith)
  ]
]

select-none :
    (test : RunRow → Bool) (rows : List RunRow) {row : RunRow}
    → select test rows ≡ []
    → Memᴰ row rows
    → test row ≡ false
select-none test [] e m = elim m [ ]
select-none test (x ∷ xs) {row} e m = elim (Bool-cases (test x)) [
  | inl t ↦ absurd (ground arith)
  | inr f ↦
      let rest : select test xs ≡ [] = ground arith in
      elim (Memᴰ.cases_cons m) [ inl same ↦ rw same f | inr later ↦ select-none test xs rest later ]
]

module _ (limits : Limits) (tenant : Option String) (request : ClaimRequest) (now : ℕ)
    (free : RunRow → Bool) (lockable : ClaimLock → Bool) (later rows : List RunRow) where
  has_room : RunRow → Bool
  has_room row = tenant_has_room limits lockable later row && key_has_room limits lockable later row

  -- What was passed over has no room.
  abbrev NoRoom : Passed → Type 0
  NoRoom (tenant_full name) =
      (r : RunRow)
      → str_eq r.tenant_id name ≡ true
      → tenant_has_room limits lockable later r ≡ false
  NoRoom (key_full name key) =
      (r : RunRow)
      → str_eq r.tenant_id name ≡ true
      → opt_eq r.concurrency_key key ≡ true
      → key_has_room limits lockable later r ≡ false

  tenant-NoRoom :
      (row : RunRow)
      → tenant_has_room limits lockable later row ≡ false
      → NoRoom (tenant_full row.tenant_id)
  unfolding tenant_has_room
  tenant-NoRoom row full r same = ground (arith, eq_iff r.tenant_id row.tenant_id)

  key-NoRoom :
      (row : RunRow)
      → key_has_room limits lockable later row ≡ false
      → NoRoom (key_full row.tenant_id row.concurrency_key)
  unfolding key_has_room
  key-NoRoom row full r same same_key =
      ground
        (arith, eq_iff r.tenant_id row.tenant_id, opt_eq_iff r.concurrency_key row.concurrency_key)

  -- A row that some pass leaves out has no room.
  passed-full :
      (passed : List Passed) (row : RunRow)
      → All NoRoom passed
      → none_passed passed row ≡ false
      → has_room row ≡ false
  unfolding none_passed not_passed has_room
  passed-full [] row full out = absurd (ground arith)
  passed-full (tenant_full name ∷ ps) row full out = elim (Bool-cases (none_passed ps row)) [
    | inl t ↦ ground (arith, full.0 row)
    | inr f ↦ passed-full ps row full.1 f
  ]
  passed-full (key_full name key ∷ ps) row full out = elim (Bool-cases (none_passed ps row)) [
    | inl t ↦ ground (arith, full.0 row)
    | inr f ↦ passed-full ps row full.1 f
  ]

  none_left-full :
      (passed : List Passed) (row : RunRow)
      → All NoRoom passed
      → next_queued limits tenant request now free passed rows ≡ none
      → Memᴰ row rows
      → claimable limits tenant request now rows row ≡ true
      → free row ≡ true
      → has_room row ≡ false
  unfolding next_queued
  none_left-full passed row full e m may is_free =
      let left : is_candidate limits tenant request now free lockable later rows passed row
          ≡ false =
        select-none _ rows (first_by-none (goes_before request rows) _ e) m in
      passed-full passed row full (ground arith)

  choose-exhausted :
      (fuel : ℕ) (passed : List Passed) (row : RunRow)
      → All NoRoom passed
      → choose fuel limits tenant request now free lockable later rows passed ≡ some none
      → Memᴰ row rows
      → claimable limits tenant request now rows row ≡ true
      → free row ≡ true
      → has_room row ≡ false
  unfolding choose
  choose-exhausted zero passed row full e m may is_free = absurd (ground arith)
  choose-exhausted (suc fuel) passed row full e m may is_free =
      elim (Option-cases (next_queued limits tenant request now free passed rows)) [
        | inl nothing ↦ none_left-full passed row full nothing m may is_free
        | inr (best, found) ↦ elim (Bool-cases (tenant_has_room limits lockable later best)) [
          | inl room ↦ elim (Bool-cases (key_has_room limits lockable later best)) [
            | inl key ↦ absurd (ground arith)
            | inr no_key ↦
                choose-exhausted fuel (key_full best.tenant_id best.concurrency_key ∷ passed) row
                  (key-NoRoom best no_key, full) (ground arith) m may is_free
          ]
          | inr no_room ↦
              choose-exhausted fuel (tenant_full best.tenant_id ∷ passed) row
                (tenant-NoRoom best no_room, full) (ground arith) m may is_free
        ]
      ]

candidates-length :
    (test : RunRow → Bool) (rows : List RunRow) → count_if test rows < suc (length rows)
candidates-length test [] = omega arith
candidates-length test (x ∷ xs) = ground (arith, candidates-length test xs)

-- The run a claim took, and its lease.
pub record IsTaken (request : ClaimRequest) (now : ℕ) (row r : RunRow) (held : Lease) : Type 0 where
  pub runs : r.status ≡ running
  pub owned : r.lease_owner ≡ some request.worker_id
  pub timed : r.lease_expires_at ≡ some held.expires_at
  pub clocked : r.running_since ≡ some now
  pub same_start : r.start ≡ row.start
  pub same_attempt : r.attempt ≡ row.attempt
  pub kept_checkpoint : r.checkpoint ≡ row.checkpoint
  pub lease_names : (held.run_id ≡ row.run_id) × (held.worker_id ≡ request.worker_id)

module _ (c : Contracts) (limits : Limits) (tenant : Option String) (request : ClaimRequest)
    (now : ℕ) (free : RunRow → Bool) (lockable : ClaimLock → Bool) (later : List RunRow)
    (db : Db) where
  take_row-IsTaken :
      (row : RunRow)
      → c.can_become queued running ≡ true
      → row.status ≡ queued
      → (r : RunRow) × (held : Lease) × (take_row c limits request row now ≡ ok (r, held))
        × IsTaken request now row r held
  unfolding take_row move moved lease
  take_row-IsTaken row may waits =
      let held =
        lease limits.max_run_seconds (moved row running now) request.worker_id request.lease_seconds
          now in
      (held.0, held.1, ground arith, ground arith)

  claimable_queued :
      (row : RunRow) → claimable limits tenant request now db.runs row ≡ true → row.status ≡ queued
  unfolding claimable
  claimable_queued row e = ground arith

  -- A claim always answers, its rounds running out on no table: either no run, the tables as they
  -- were, or one run of the table that the query may return and that no other transaction holds, with
  -- room for its tenant and its key in the counts taken under their locks. That run is RUNNING under
  -- a lease of the worker that asked, in the same attempt and with its checkpoint.
  pub claim_total :
      c.can_become queued running ≡ true
      → (claim c limits tenant request now free lockable later db ≡ ok (none, db))
        ⊎ (row : RunRow) × (r : RunRow) × (held : Lease) × IsChosen limits tenant request now free
            lockable later db.runs row
          × IsTaken request now row r held
          × (claim c limits tenant request now free lockable later db
              ≡ ok (some (record_of r now, held), record db { runs = put_run r db.runs }))
  unfolding claim claim_chosen
  claim_total may =
      let (choice, out) =
        choose_total limits tenant request now free lockable later db.runs (suc (length db.runs)) []
          (candidates-length _ db.runs) in
      outcome choice out
    where
      outcome :
          (choice : Option RunRow)
          → choose (suc (length db.runs)) limits tenant request now free lockable later db.runs []
            ≡ some choice
          → (claim c limits tenant request now free lockable later db ≡ ok (none, db))
            ⊎ (row : RunRow) × (r : RunRow) × (held : Lease) × IsChosen limits tenant request now
                free lockable later db.runs row
              × IsTaken request now row r held
              × (claim c limits tenant request now free lockable later db
                  ≡ ok (some (record_of r now, held), record db { runs = put_run r db.runs }))
      outcome none out = inl (rw (out, claim) refl)
      outcome (some row) out =
          let chosen =
            choose-IsChosen limits tenant request now free lockable later db.runs _ [] out in
          let (r, held, made, taken) = take_row-IsTaken row may (claimable_queued row chosen.1) in
          inr (row, r, held, chosen, taken, rw (out, claim, made) refl)

  -- A claim that takes no run leaves none behind that it could have taken: every run of the table
  -- that the query may return and that no other transaction holds is in a tenant or under a key
  -- without room, or whose lock another claim holds.
  pub claim_exhausted :
      (db' : Db) (row : RunRow)
      → claim c limits tenant request now free lockable later db ≡ ok (none, db')
      → Memᴰ row db.runs
      → claimable limits tenant request now db.runs row ≡ true
      → free row ≡ true
      → tenant_has_room limits lockable later row && key_has_room limits lockable later row ≡ false
  unfolding claim claim_chosen has_room
  claim_exhausted db' row e m may is_free =
      elim (Option-cases
        (choose (suc (length db.runs)) limits tenant request now free lockable later db.runs [])) [
          | inl out ↦ absurd (ground arith)
          | inr (none, out) ↦
              choose-exhausted limits tenant request now free lockable later db.runs _ [] row tt out
                m may is_free
          | inr (some best, out) ↦
              let done : claim_chosen c limits request now db (some best) ≡ ok (none, db') =
                ground arith in
              let (held, made, rest) = >>=-eq-ok (take_row c limits request best now) _ done in
              absurd (ground arith)
        ]
