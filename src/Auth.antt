-- ===== src/Auth.antt =====
-- The sessions of users, apps/api/src/app/api/auth_service.py.
pub mod Calls
pub mod Refresh
pub mod Login
