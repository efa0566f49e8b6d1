-- ===== src/Etcd.antt =====
-- controllers/etcd.go: which etcd member belongs to which machine, the verification of member lists,
-- the health check and the audit.
pub mod Names
pub mod Membership
pub mod Health
pub mod Check
pub mod Audit
