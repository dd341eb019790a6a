-- ===== src/Compliance.antt =====
-- The compliance of the devices: internal/mdm/compliance and internal/database/device_compliance.go.
pub mod Critical
pub mod Engine
pub mod Transition
mod Tests
