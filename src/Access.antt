-- ===== src/Access.antt =====
-- Who may call the dashboard's API: internal/auth and the guard of internal/api/dashboard_auth.go.
pub mod Roles
pub mod Gate
pub mod Guard
mod Tests
