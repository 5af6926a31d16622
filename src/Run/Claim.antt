-- ===== src/Run/Claim.antt =====
-- `RunStore.claim`, over the query of Run/Queue: the loop that counts the room again under the
-- advisory locks, and the lease on the run it takes. The counts read `later`, a snapshot that holds
-- every claim committed before the lock was taken; `lockable` says which locks no other claim holds.
use agent_runs.Base.{
  ℕ, zero, suc, String, Bool, true, false, ◌&&◌, Option, none, some, List, [], ◌∷◌, ltb, length,
  Result, ok, err, internal, ◌>>=◌,
}
use agent_runs.Run.Status.{running}
use agent_runs.Run.Rows.{RunRow, Lease, Db, Contracts}
use agent_runs.Run.Moves.{move, lease}
use agent_runs.Run.Store.{RunRecord, record_of, put_run}
use agent_runs.Run.Queue.{
  Limits, ClaimRequest, Passed, tenant_full, key_full, running_with_key, held_by_tenant,
  next_queued,
}

-- The advisory locks by what they are taken on: a tenant, or a tenant's key.
pub data ClaimLock : Type 0 where
  tenant_lock : String → ClaimLock
  key_lock : String → String → ClaimLock

-- `_tenant_has_room`
unfoldable pub tenant_has_room : Limits → (ClaimLock → Bool) → List RunRow → RunRow → Bool
unfolding held_by_tenant
tenant_has_room limits lockable later row = elim limits.max_running_per_tenant [
  | none ↦ true
  | some most ↦
      lockable (tenant_lock row.tenant_id) && ltb (held_by_tenant row.tenant_id later) most
]

-- `_key_has_room`
unfoldable pub key_has_room : Limits → (ClaimLock → Bool) → List RunRow → RunRow → Bool
unfolding running_with_key
key_has_room limits lockable later row = elim row.concurrency_key [
  | none ↦ true
  | some key ↦
      lockable (key_lock row.tenant_id key)
      && ltb (running_with_key row.tenant_id key later) limits.concurrency_per_key
]

-- The loop of `claim`, on fuel: `none` when the fuel ran out, `some none` when there is no run.
unfoldable pub choose :
    ℕ
    → Limits
    → Option String
    → ClaimRequest
    → ℕ
    → (RunRow → Bool)
    → (ClaimLock → Bool)
    → List RunRow
    → List RunRow
    → List Passed
    → Option (Option RunRow)
choose zero limits tenant request now free lockable later rows passed = none
choose (suc fuel) limits tenant request now free lockable later rows passed =
    elim (next_queued limits tenant request now free passed rows) [
      | none ↦ some none
      | some row ↦ elim (tenant_has_room limits lockable later row) [
        | false ↦
            choose fuel limits tenant request now free lockable later rows
              (tenant_full row.tenant_id ∷ passed)
        | true ↦ elim (key_has_room limits lockable later row) [
          | false ↦
              choose fuel limits tenant request now free lockable later rows
                (key_full row.tenant_id row.concurrency_key ∷ passed)
          | true ↦ some (some row)
        ]
      ]
    ]

-- What a claim does with the run it chose.
unfoldable pub take_row : Contracts → Limits → ClaimRequest → RunRow → ℕ → Result (RunRow × Lease)
unfolding move lease
take_row c limits request row now = do
  r ← move c row running now
  ok (lease limits.max_run_seconds r request.worker_id request.lease_seconds now)

-- A claim with the run it chose, or with none.
unfoldable pub claim_chosen :
    Contracts
    → Limits
    → ClaimRequest
    → ℕ
    → Db
    → Option RunRow
    → Result (Option (RunRecord × Lease) × Db)
unfolding record_of
claim_chosen c limits request now db none = ok (none, db)
claim_chosen c limits request now db (some row) = do
  held ← take_row c limits request row now
  ok (some (record_of held.0 now, held.1), record db { runs = put_run held.0 db.runs })

-- `RunStore.claim`. Each round passes a tenant or a key over, so one round more than there are rows
-- is enough; the fuel running out would be an error.
unfoldable pub claim :
    Contracts
    → Limits
    → Option String
    → ClaimRequest
    → ℕ
    → (RunRow → Bool)
    → (ClaimLock → Bool)
    → List RunRow
    → Db
    → Result (Option (RunRecord × Lease) × Db)
claim c limits tenant request now free lockable later db =
    elim (choose (suc (length db.runs)) limits tenant request now free lockable later db.runs []) [
      | none ↦ err internal
      | some chosen ↦ claim_chosen c limits request now db chosen
    ]
