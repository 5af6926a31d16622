-- ===== src/Run/Status.antt =====
-- `RunStatus` of the contracts package, as this repository uses it: the values are those that
-- src/agent_runs/store/tables.py and docs/ARCHITECTURE.md name. The rule `can_become` is the
-- package's own code and stays a parameter.
use agent_runs.Base.{◌≡◌, ◌↔◌, ◌⊎◌, Bool, true, false, ◌==◌, ℕ, arith}

pub data RunStatus : Type 0 where
  queued running paused success partial error timeout cancelled rejected : RunStatus

-- `RunStatus.final`: the endings, as `ix_runs_ended` lists them.
abbrev pub final : RunStatus → Bool
final queued = false
final running = false
final paused = false
final _ = true

abbrev pub rank : RunStatus → ℕ
rank queued = 0
rank running = 1
rank paused = 2
rank success = 3
rank partial = 4
rank error = 5
rank timeout = 6
rank cancelled = 7
rank rejected = 8

-- `status == other`
abbrev pub status_eq : RunStatus → RunStatus → Bool
status_eq a b = rank a == rank b

pub status_eq_iff : (a b : RunStatus) → (status_eq a b ≡ true) ↔ (a ≡ b)
status_eq_iff a b = ground arith

-- The documented lifecycle, as far as the theorems need it: an ended run stays as it is, what may
-- come before RUNNING, PAUSED and QUEUED, and that a run not yet ended can always be cancelled or
-- timed out.
pub record Follows (can_become : RunStatus → RunStatus → Bool) : Type 0 where
  pub ended_stays : (s t : RunStatus) → final s ≡ true → can_become s t ≡ false
  pub before_running : (s : RunStatus) → can_become s running ≡ true → (s ≡ queued) ⊎ (s ≡ paused)
  pub before_paused : (s : RunStatus) → can_become s paused ≡ true → s ≡ running
  pub before_queued : (s : RunStatus) → can_become s queued ≡ true → (s ≡ running) ⊎ (s ≡ paused)
  pub can_stop :
      (s : RunStatus)
      → final s ≡ false
      → (can_become s cancelled ≡ true) × (can_become s timeout ≡ true)
  pub can_requeue : (can_become running queued ≡ true) × (can_become paused queued ≡ true)
  pub can_run : (can_become queued running ≡ true) × (can_become paused running ≡ true)
  pub can_end : (t : RunStatus) → final t ≡ true → can_become running t ≡ true
