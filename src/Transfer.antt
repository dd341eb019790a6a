-- ===== src/Transfer.antt =====
-- Files of a device through the server: internal/ws/agent_fs.go on the device, internal/ws/fs_bridge.go and
-- internal/api/files.go on the server.
pub mod Download
pub mod Relay
pub mod Loss
pub mod Upload
pub mod Push
pub mod Writing
mod Tests
