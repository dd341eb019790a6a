-- ===== src/Alerting.antt =====
-- The alerts: internal/alerting/engine.go and the table of internal/database/alerting.go.
pub mod Table
pub mod Engine
pub mod Cadence
pub mod Closing
mod Tests
