-- ===== src/Samples.antt =====
-- The theorems at concrete inputs.
mod Composed
mod Ranked
mod Evaluated
mod Refreshed
mod Daily
mod Executed
mod Kept
mod Persisted
mod Planned
mod Queued
mod Reviewed
mod Scheduled
mod Submitted
