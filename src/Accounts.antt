-- ===== src/Accounts.antt =====
-- The dashboard's accounts: internal/auth/users.go, internal/api/users_admin.go and the login of
-- internal/api/auth_handlers.go.
pub mod Table
pub mod Handlers
pub mod Counting
pub mod Admins
pub mod Race
pub mod Login
mod Tests
