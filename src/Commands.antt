-- ===== src/Commands.antt =====
-- The device commands: internal/models/device_command.go, internal/database/device_commands.go, and
-- the handlers of internal/ws that move a command on.
pub mod Store
pub mod Rows
pub mod Wire
pub mod Cases
pub mod Invariant
pub mod Ownership
pub mod Delivery
mod Tests
