-- ===== src/Store.antt =====
-- The persistence layer, apps/api/src/app/persistence/store.py.
pub mod Rows
pub mod Leases
pub mod Records
pub mod Planning
pub mod Analyses
pub mod Signals
pub mod Sessions
pub mod Decisions
pub mod Calibrations
