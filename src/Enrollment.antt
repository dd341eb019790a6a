-- ===== src/Enrollment.antt =====
-- The enrolment of devices: internal/auth/enrollment_*.go, tokenhash.go and the certificates of
-- internal/pki/ca.go that it issues.
pub mod Csr
pub mod Certificate
pub mod Tokens
pub mod Service
pub mod Names
pub mod Failure
pub mod Interleaving
pub mod Rows
pub mod OneShot
pub mod Reuse
mod Tests
