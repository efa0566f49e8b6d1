-- ===== src/Remediation.antt =====
-- controllers/remediation.go: which unhealthy machine is remediated, when, and how often.
pub mod Limits
pub mod Progress
pub mod Target
pub mod Api
pub mod Cleanup
pub mod Checks
pub mod Unhealthy
