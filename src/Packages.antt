-- ===== src/Packages.antt =====
-- Packages and their deployments, from the request to what the agent runs and reports.
pub mod Catalog
pub mod Deployments
pub mod Runner
pub mod Sound
pub mod Calls
pub mod Invariant
pub mod Reports
pub mod Allowlist
mod Tests
