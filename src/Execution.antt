-- ===== src/Execution.antt =====
-- The owner-approved execution of an option: apps/api/src/app/services/execution.py and
-- apps/api/src/app/api/v4_routes.py.
pub mod Readback
pub mod Dependencies
pub mod Steps
pub mod Cancel
pub mod Continue
