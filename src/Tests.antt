-- ===== src/Tests.antt =====
-- A small service to run the theorems on: the documented lifecycle, one tenant, and a few rows.
mod Samples
mod Requests
mod Repeats
mod Rules
mod Deliveries
mod Outcomes
mod Schedules
mod Ticks
mod Limits
mod Attempts
mod Pages
mod Sends
mod Calls
mod Signatures
