-- ===== src/Domain.antt =====
-- The domain rules of apps/api/src/app/domain: the status of a project, the readiness of the
-- planning inputs, and the cycles of their dependencies.
pub mod Status
pub mod Readiness
pub mod Cycles
