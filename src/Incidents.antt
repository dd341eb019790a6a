-- ===== src/Incidents.antt =====
-- Incidents: the automation that follows alerts, internal/itsm/alert_bridge.go and internal/database/incidents.go,
-- and an operator's change of an incident, internal/api/incidents.go.
pub mod Table
pub mod Automation
pub mod Patch
pub mod Rows
pub mod Changes
pub mod Invariant
pub mod Recovery
mod Tests
