-- ===== src/Schedule.antt =====
-- Schedules: src/agent_runs/domain/cadence.py, domain/schedules.py, store/schedules.py and firing.py.
pub mod Cadence
pub mod Rows
pub mod Store
pub mod Firing
