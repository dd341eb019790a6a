-- ===== src/Assignments.antt =====
-- Configuration profiles, who gets them, and the policy that a device ends up with.
pub mod Tables
pub mod Groups
pub mod Profiles
pub mod Effective
pub mod Calls
pub mod Consistent
pub mod GroupCalls
pub mod ProfileCalls
pub mod Invariant
pub mod View
pub mod Lookup
pub mod Deletions
pub mod Refinement
pub mod Promise
pub mod Sources
pub mod Listing
pub mod States
mod Tests
