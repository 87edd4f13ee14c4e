-- ===== src/Jobs.antt =====
-- The durable jobs of apps/api/src/app/workers.
pub mod Records
pub mod Access
pub mod Stages
pub mod Run
pub mod Schedule
pub mod Enqueue
pub mod Relay
pub mod Daily
