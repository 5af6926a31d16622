-- ===== src/Tests/Limits.antt =====
-- A claim under a key whose one place is free, counted after another claim took a run.
use mathlib.Core.List.{Memᴰ}
use agent_runs.Base.{◌≤◌, ◌≡◌, List, true, some, none, [], ◌∷◌, arith, eq_iff, ok, refl}
use agent_runs.Run.Rows.{RunRow, Lease, Db}
use agent_runs.Run.Status.{running}
use agent_runs.Run.Store.{record_of, put_run}
use agent_runs.Run.Moves.{moved, move, lease}
use agent_runs.Run.Queue.{
  none_passed, key_room, claimable, first_by, next_queued, running_with_key, held_by_tenant,
}
use agent_runs.Run.Claim.{tenant_has_room, key_has_room, choose, take_row, claim_chosen, claim}
use agent_runs.Run.Within.{AllKeyed, IsWithinCap, claim_within}
use agent_runs.Tests.Samples.{contracts, limits, ask, queued_row, only}

abbrev keyed_row : RunRow
keyed_row = record queued_row { start = record queued_row.start { concurrency_key = some "crm" } }

abbrev taken_row : RunRow × Lease
taken_row =
    lease limits.max_run_seconds (moved keyed_row running 3) ask.worker_id ask.lease_seconds 3

abbrev after : Db
after = only taken_row.0

-- Another run of the tenant, without a key, that another claim took after the query.
abbrev other_row : RunRow
other_row = record taken_row.0 {
  start = record taken_row.0.start { run_id = "r2"; concurrency_key = none };
}

abbrev counted_rows : List RunRow
counted_rows = keyed_row ∷ other_row ∷ []

claimed :
    claim contracts limits none ask 3 (λ r. true) (λ l. true) counted_rows (only keyed_row)
    ≡ ok (some (record_of taken_row.0 3, taken_row.1), after)
unfolding claim claim_chosen choose next_queued claimable key_room tenant_has_room key_has_room
    none_passed running_with_key held_by_tenant first_by take_row move put_run
claimed = refl

counted-AllKeyed : AllKeyed counted_rows
counted-AllKeyed = ((ground (arith, eq_iff "r1" "r2"), tt), (tt, tt))

still_there : (row : RunRow) → Memᴰ row (keyed_row ∷ []) → true ≡ true → Memᴰ row counted_rows
still_there row (Memᴰ.head e) free = Memᴰ.head e
still_there row (Memᴰ.tail m) free = elim m [ ]

room_before :
    (running_with_key "t" "crm" counted_rows ≤ limits.concurrency_per_key)
    × IsWithinCap limits.max_running_per_tenant (held_by_tenant "t" counted_rows)
unfolding running_with_key held_by_tenant lease moved
room_before = (omega arith, omega arith)

claim_within_example :
    (r : RunRow) × (record_of taken_row.0 3 ≡ record_of r 3)
    × (after.runs ≡ put_run r (keyed_row ∷ []))
    × (running_with_key "t" "crm" (put_run r counted_rows) ≤ limits.concurrency_per_key)
    × IsWithinCap limits.max_running_per_tenant (held_by_tenant "t" (put_run r counted_rows))
claim_within_example =
    claim_within contracts limits none ask 3 (λ r. true) (λ l. true) counted_rows (only keyed_row)
      "t" "crm" counted-AllKeyed still_there room_before.0 room_before.1 claimed
