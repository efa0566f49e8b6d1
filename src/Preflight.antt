-- ===== src/Preflight.antt =====
-- controllers/health.go and controllers/preflight.go: the health of the control plane components, and
-- the checks in front of a scale operation.
pub mod Nodes
pub mod Checks
