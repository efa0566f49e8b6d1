-- ===== src/Etcd/Health/Tests.antt =====
-- Observations of the health check, and what it says of them.
use cluster_api_control_plan.Base.{ℕ, ◌≡◌, ◌≢◌, ◌↔◌, ◌<◌, [], refl}
use cluster_api_control_plan.Etcd.Health.{
  EtcdHealth, quorum, quorum_lost, inspection_failed, condition_reason,
}
use cluster_api_control_plan.Etcd.Health.Laws.{IsCompletion, condition_reason-quorum_lost_iff}

-- One healthy member of three, all machines having answered.
abbrev one_left : EtcdHealth
one_left = record {
  machines = 3;
  inspected = 3;
  healthy = 1;
  members = 3;
  excluded = 0;
  statuses = [];
}

lost : condition_reason one_left ≡ quorum_lost
unfolding condition_reason
lost = refl

-- A machine that does not answer may be healthy.
not_told : condition_reason (record one_left { inspected = 2 }) ≡ inspection_failed
unfolding condition_reason
not_told = refl

condition_reason-quorum_lost_iff_example :
    (condition_reason one_left ≡ quorum_lost)
    ↔ (one_left.inspected ≢ 0)
      × ((actual : ℕ) → IsCompletion one_left actual → actual < quorum one_left)
condition_reason-quorum_lost_iff_example = condition_reason-quorum_lost_iff one_left
