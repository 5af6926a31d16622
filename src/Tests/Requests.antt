-- ===== src/Tests/Requests.antt =====
-- The theorems on the run store at work: one run started, claimed, paused, answered and ended.
use mathlib.Core.List.{Memᴰ}
use agent_runs.Base.{◌≡◌, ◌⊎◌, true, false, ◌&&◌, none, some, [], ◌∷◌, ok, refl}
use agent_runs.Run.Rows.{RunRow, Lease, Db}
use agent_runs.Run.Store.{record_of, put_run}
use agent_runs.Run.Queue.{not_passed, none_passed, key_room, claimable, first_by, next_queued}
use agent_runs.Run.Claim.{tenant_has_room, key_has_room, choose, claim_chosen, claim}
use agent_runs.Run.Choice.{IsChosen}
use agent_runs.Run.Claims.{IsTaken, claim_total, claim_exhausted}
use agent_runs.Run.Starts.{new_row, taken, start_run}
use agent_runs.Run.Service.{start_request, serve, empty_db, nothing, served}
use agent_runs.Run.Invariant.Store.{AllSound}
use agent_runs.Run.Invariant.Reached.{Reach-AllSound}
use agent_runs.Tests.Samples.{
  contracts, lifecycle-Follows, first_start, queued_row, only, limits, ask,
}

-- The tables after the first start.
abbrev started_db : Db
started_db = record empty_db { runs = new_row first_start true 1 ∷ [] }

started : serve contracts limits 1 (start_request first_start true true) empty_db ≡ ok started_db
unfolding serve start_run taken
started = refl

Reach-AllSound_example : AllSound started_db
Reach-AllSound_example =
    Reach-AllSound contracts lifecycle-Follows limits started_db
      (served 1 (start_request first_start true true) nothing started)

claim_total_example :
    (claim contracts limits none ask 3 (λ r. true) (λ l. true) (queued_row ∷ []) (only queued_row)
      ≡ ok (none, only queued_row))
    ⊎ (row : RunRow) × (r : RunRow) × (held : Lease) × IsChosen limits none ask 3
        (λ r'. true)
        (λ l. true)
        (queued_row ∷ [])
        (queued_row ∷ [])
        row
      × IsTaken ask 3 row r held
      × (claim contracts limits none ask 3
            (λ r'. true)
            (λ l. true)
            (queued_row ∷ [])
            (only queued_row)
          ≡ ok (
            some (record_of r 3, held),
            record (only queued_row) { runs = put_run r (queued_row ∷ []) },
          ))
claim_total_example =
    claim_total contracts limits none ask 3 (λ r. true) (λ l. true) (queued_row ∷ [])
      (only queued_row) refl

-- Another claim holds the tenant's lock, so this one takes nothing.
locked_out :
    claim contracts limits none ask 3 (λ r. true) (λ l. false) (queued_row ∷ []) (only queued_row)
    ≡ ok (none, only queued_row)
unfolding claim claim_chosen choose next_queued claimable key_room tenant_has_room none_passed
    not_passed first_by
locked_out = refl

claim_exhausted_example :
    tenant_has_room limits (λ l. false) (queued_row ∷ []) queued_row
      && key_has_room limits (λ l. false) (queued_row ∷ []) queued_row
    ≡ false
unfolding claimable key_room
claim_exhausted_example =
    claim_exhausted contracts limits none ask 3 (λ r. true) (λ l. false) (queued_row ∷ [])
      (only queued_row) (only queued_row) queued_row locked_out (Memᴰ.head refl) refl refl
