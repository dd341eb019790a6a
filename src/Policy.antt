-- ===== src/Policy.antt =====
-- internal/mdm/policy: the merge of configuration profiles, restrictive values first.
pub mod Json
pub mod Types
pub mod Flatten
pub mod Unflatten
pub mod Scalars
pub mod Contributions
pub mod Decide
pub mod Merge
pub mod Restrictive
pub mod Arrays
pub mod Paths
pub mod Summary
pub mod Failure
mod Tests
