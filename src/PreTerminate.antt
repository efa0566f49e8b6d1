-- ===== src/PreTerminate.antt =====
-- controllers/preterminate.go: the pre-terminate hook that removes the etcd member of a machine that
-- is being deleted, before its infrastructure goes away.
pub mod Hook
pub mod Membership
pub mod Service
