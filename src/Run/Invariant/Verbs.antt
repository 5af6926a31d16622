-- ===== src/Run/Invariant/Verbs.antt =====
-- The operations on one locked row keep the invariant.
use mathlib.Core.Path.{subst}
use agent_runs.Base.{
  ◌⊎◌, ℕ, String, Bool, Option, some, ok, Option-cases, inl, inr, ◌≡◌, arith, true, opt_eq,
}
use agent_runs.Answering.{KeyInfo}
use agent_runs.Run.Status.{paused, cancelled, final, status_eq, Follows}
use agent_runs.Run.Rows.{
  Json, Interrupt, Resolution, InterruptDecision, RunRow, RunFinish, Lease, Contracts,
}
use agent_runs.Run.Pause.{pause_row}
use agent_runs.Run.Resume.{continued, resume_row}
use agent_runs.Run.Moves.{retried}
use agent_runs.Run.Ending.{cancel_row, retry_row, end_row, finish_row}
use agent_runs.Run.Leasing.{heartbeat_row, release_row}
use agent_runs.Run.Invariant.{IsSound}

-- The three ways a finish that is taken may go.
finish_row-cases :
    (c : Contracts) (draw : ℕ) (row : RunRow) (ending : RunFinish) (worker : Option String)
    (now : ℕ) {r : RunRow} {changed : Bool}
    → finish_row c draw ending worker now row ≡ ok (r, changed)
    → (row ≡ r)
      ⊎ (retried row ending ≡ true) × (retry_row c draw row worker now ≡ ok (r, changed))
      ⊎ (end_row c row ending worker now ≡ ok (r, changed))
unfolding finish_row
finish_row-cases c draw row ending worker now h = ground arith

module _ (c : Contracts) (law : Follows c.can_become) (row : RunRow) (v : IsSound row)
    (now : ℕ) where
  pub pause_row-IsSound :
      (interrupt : Interrupt) (checkpoint : Option Json) (worker : Option String) {r : RunRow}
      {changed : Bool}
      → pause_row c interrupt checkpoint worker now row ≡ ok (r, changed)
      → IsSound r
  unfolding pause_row
  pause_row-IsSound interrupt checkpoint worker h =
      ground (arith, law.before_paused row.status, law.ended_stays row.status cancelled)

  continued-IsSound :
      (decision : InterruptDecision) {r : RunRow}
      → status_eq row.status paused ≡ true
      → continued c row decision now ≡ ok r
      → IsSound r
  unfolding continued
  continued-IsSound decision p h = ground arith

  retry_row-IsSound :
      (draw : ℕ) (worker : Option String) (ending : RunFinish) {r : RunRow} {changed : Bool}
      → retried row ending ≡ true
      → retry_row c draw row worker now ≡ ok (r, changed)
      → IsSound r
  unfolding retry_row retried
  retry_row-IsSound draw worker ending t h = ground arith

  end_row-IsSound :
      (ending : RunFinish) (worker : Option String) {r : RunRow} {changed : Bool}
      → final ending.status ≡ true
      → end_row c row ending worker now ≡ ok (r, changed)
      → IsSound r
  unfolding end_row
  end_row-IsSound ending worker ends h = ground (arith, law.ended_stays row.status ending.status)

module _ (c : Contracts) (law : Follows c.can_become) (row : RunRow) (v : IsSound row)
    (now : ℕ) where
  answered-IsSound :
      (resolution : Resolution) → IsSound (record row { last_resolution = some resolution })
  answered-IsSound resolution = ground arith

  pub resume_row-IsSound :
      (resolution : Resolution) (answerer : KeyInfo) (repeated : Bool) {r : RunRow} {changed : Bool}
      → resume_row c row resolution answerer repeated now ≡ ok (r, changed)
      → IsSound r
  unfolding resume_row
  resume_row-IsSound resolution answerer repeated {r} h = elim (Option-cases row.awaiting) [
    | inl e ↦ ground arith
    | inr (asked, e) ↦ ground (
      arith,
      answered-IsSound resolution,
      continued-IsSound c law (record row { last_resolution = some resolution })
          (answered-IsSound resolution) now resolution.decision {r = r},
    )
  ]

  pub cancel_row-IsSound :
      (canceller : KeyInfo) (reason : Option String) {r : RunRow} {changed : Bool}
      → cancel_row c canceller reason now row ≡ ok (r, changed)
      → IsSound r
  unfolding cancel_row
  cancel_row-IsSound canceller reason h = ground (arith, law.ended_stays row.status cancelled)

  pub finish_row-IsSound :
      (draw : ℕ) (ending : RunFinish) (worker : Option String) {r : RunRow} {changed : Bool}
      → final ending.status ≡ true
      → finish_row c draw ending worker now row ≡ ok (r, changed)
      → IsSound r
  finish_row-IsSound draw ending worker ends h =
      elim (finish_row-cases c draw row ending worker now h) [
        | inl same ↦ subst IsSound same v
        | inr (inl again) ↦ retry_row-IsSound c law row v now draw worker ending again.0 again.1
        | inr (inr stands) ↦ end_row-IsSound c law row v now ending worker ends stands
      ]

  pub heartbeat_row-IsSound :
      (max_run : Option ℕ) (worker : String) (lease_seconds : ℕ) (checkpoint : Option Json)
      {r : RunRow} {held : Lease}
      → opt_eq row.lease_owner (some worker) ≡ true
      → heartbeat_row max_run row worker lease_seconds checkpoint now ≡ ok (r, held)
      → IsSound r
  unfolding heartbeat_row
  heartbeat_row-IsSound max_run worker lease_seconds checkpoint fenced h = ground arith

  pub release_row-IsSound :
      (worker : String) (checkpoint : Option Json) {r : RunRow} {changed : Bool}
      → release_row c worker checkpoint now row ≡ ok (r, changed)
      → IsSound r
  unfolding release_row
  release_row-IsSound worker checkpoint h =
      ground (arith, law.before_queued row.status, law.ended_stays row.status cancelled)
