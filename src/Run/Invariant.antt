-- ===== src/Run/Invariant.antt =====
-- What holds of every row of `agent_runs` between two transactions.
pub mod Verbs
pub mod Rest
pub mod Store
pub mod Chosen
pub mod Reached
use agent_runs.Base.{ℕ, ◌+◌, ◌≤◌, String, ◌≡◌, true, false, Option, none, some, is_some}
use agent_runs.Run.Status.{queued, running, paused, error, final, status_eq}
use agent_runs.Run.Rows.{Interrupt, RunRow}
use agent_runs.Run.Moves.{max_lease_lapses, max_error_retries}

abbrev pub assignee_of : Option Interrupt → Option String
assignee_of none = none
assignee_of (some i) = i.assignee

abbrev pub deadline_of : Option Interrupt → Option ℕ
deadline_of none = none
deadline_of (some i) = i.deadline

-- The columns agree with the status: what tables.py says each column is set for, and the two bounds
-- on how often a run is put back.
pub record IsSound (r : RunRow) : Type 0 where
  pub running_clock : is_some r.running_since ≡ status_eq r.status running
  pub leased_running : is_some r.lease_owner ≡ true → r.status ≡ running
  pub lease_timed : is_some r.lease_expires_at ≡ is_some r.lease_owner
  pub leased_durable : is_some r.lease_owner ≡ true → is_some r.queued_at ≡ true
  pub cancel_leased : is_some r.cancel_requested_at ≡ true → is_some r.lease_owner ≡ true
  pub waiting : is_some r.awaiting ≡ status_eq r.status paused
  pub inbox : r.assignee ≡ assignee_of r.awaiting
  pub due : r.awaiting_deadline ≡ deadline_of r.awaiting
  pub held_back : is_some r.available_at ≡ true → r.status ≡ queued
  pub queued_durable : r.status ≡ queued → is_some r.queued_at ≡ true
  pub ended_clean : final r.status ≡ true → r.checkpoint ≡ none
  pub lapses_capped : r.lease_lapses ≤ max_lease_lapses
  pub lapses_end : r.lease_lapses ≡ max_lease_lapses → r.status ≡ error
  pub retries_capped : r.error_retries ≤ max_error_retries
  pub attempts_counted : r.error_retries + r.lease_lapses ≤ r.attempt
  pub attempts_live : final r.status ≡ false → r.error_retries + r.lease_lapses + 1 ≤ r.attempt
