-- ===== src/Scheduler.antt =====
-- The run of an automation, internal/scheduler/cron.go. The clock that starts it is the package cron.
pub mod Dispatch
pub mod Settled
mod Tests
