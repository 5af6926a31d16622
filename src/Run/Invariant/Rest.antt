-- ===== src/Run/Invariant/Rest.antt =====
-- A start, a claim and the ticker's sweeps keep the invariant, row by row.
use agent_runs.Base.{ℕ, String, Bool, Option, ok, ◌≡◌, arith}
use agent_runs.Run.Status.{queued, running, timeout, Follows}
use agent_runs.Run.Rows.{RunStart, RunRow, Lease, Contracts}
use agent_runs.Run.Starts.{new_row}
use agent_runs.Run.Queue.{Limits, ClaimRequest}
use agent_runs.Run.Claim.{take_row}
use agent_runs.Run.Sweeps.{deadline_row, overworked_row, lapsed_row, overdue_row}
use agent_runs.Run.Invariant.{IsSound}

pub new_row-IsSound :
    (start : RunStart) (queue : Bool) (now : ℕ) → IsSound (new_row start queue now)
unfolding new_row
new_row-IsSound start queue now = ground arith

module _ (c : Contracts) (law : Follows c.can_become) (row : RunRow) (v : IsSound row)
    (now : ℕ) where
  pub take_row-IsSound :
      (limits : Limits) (request : ClaimRequest) {r : RunRow} {held : Lease}
      → row.status ≡ queued
      → take_row c limits request row now ≡ ok (r, held)
      → IsSound r
  unfolding take_row
  take_row-IsSound limits request q h = ground arith

  pub deadline_row-IsSound : {r : RunRow} → deadline_row c now row ≡ ok r → IsSound r
  unfolding deadline_row
  deadline_row-IsSound h = ground (arith, law.ended_stays row.status timeout)

  pub overworked_row-IsSound :
      (max_run : Option ℕ) {r : RunRow} → overworked_row c max_run now row ≡ ok r → IsSound r
  unfolding overworked_row
  overworked_row-IsSound max_run h = ground (arith, law.ended_stays row.status timeout)

  pub lapsed_row-IsSound :
      (draw : String → ℕ) {r : RunRow}
      → row.status ≡ running
      → lapsed_row c draw now row ≡ ok r
      → IsSound r
  unfolding lapsed_row
  lapsed_row-IsSound draw p h = ground (arith)

  pub overdue_row-IsSound : {r : RunRow} → overdue_row c now row ≡ ok r → IsSound r
  unfolding overdue_row
  overdue_row-IsSound h = ground (arith, law.ended_stays row.status timeout)
