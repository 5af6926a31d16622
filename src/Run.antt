-- ===== src/Run.antt =====
-- A run: its row, the moves between its statuses, and the operations of src/agent_runs/store/runs.py.
pub mod Status
pub mod Rows
pub mod Moves
pub mod Store
pub mod Pause
pub mod Resume
pub mod Ending
pub mod Leasing
pub mod Sweeps
pub mod Queue
pub mod Claim
pub mod Starts
pub mod Retention
pub mod Artifacts
pub mod Events
pub mod Choice
pub mod Service
pub mod Keeps
pub mod Repeat
pub mod Fencing
pub mod Outcomes
pub mod Claims
pub mod Within
pub mod Purges
pub mod Invariant
pub mod Ended
