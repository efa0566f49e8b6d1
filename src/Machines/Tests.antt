-- ===== src/Machines/Tests.antt =====
-- A reconcile of three machines, one of which is of an older version.
use cluster_api_control_plan.Base.{none, some, ok, max, ◌≤◌, false, length, count}
use cluster_api_control_plan.Machines.{reconcile_machines}
use cluster_api_control_plan.Machines.Step.{
  is_change, reconcile_last_phase, reconcile_last_phase-once,
}
use cluster_api_control_plan.Remediation.Api.{Api, done}
use cluster_api_control_plan.Machines.Bounds.{IsBounded, reconcile_machines-IsBounded}
use cluster_api_control_plan.Samples.{library, cluster, statuses}
use cluster_api_control_plan.Samples.Worlds.{rolling_plane, mixed, machines_world}

abbrev api : Api
api = record {
  helper = λ _. none;
  patch = λ _. done;
  delete = λ _. done;
  patch_control_plane = none;
  has_etcd_data = λ _. ok false;
}

-- The machine cp-b is unhealthy, and cp-a is of an older version.
reconcile_last_phase-once_example :
    count is_change
      (reconcile_last_phase library api
        (some cluster)
        statuses
        90
        max
        (machines_world false)
        rolling_plane
        mixed.machines).effects
    ≤ 1
reconcile_last_phase-once_example =
    reconcile_last_phase-once library api (some cluster) statuses 90 max (machines_world false)
      rolling_plane mixed.machines

reconcile_machines-IsBounded_example :
    IsBounded
      (length mixed.machines)
      rolling_plane
      (reconcile_machines library (machines_world false) rolling_plane mixed.machines).effects
reconcile_machines-IsBounded_example =
    reconcile_machines-IsBounded library (machines_world false) rolling_plane mixed.machines
