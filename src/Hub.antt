-- ===== src/Hub.antt =====
-- The hub of the agents' sessions: internal/ws/hub.go.
pub mod Sessions
pub mod Registry
mod Tests
