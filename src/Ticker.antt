-- ===== src/Ticker.antt =====
-- src/agent_runs/ticker.py: the background loop. What a pass of it meets is given: which rows other
-- transactions hold, what the draws and the minted ids are, what the receivers of webhooks and the blob
-- store answer, and at which transactions the database fails.
pub mod Jobs
pub mod Steps
pub mod Tick
pub mod Refines
