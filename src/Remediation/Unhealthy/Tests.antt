-- ===== src/Remediation/Unhealthy/Tests.antt =====
-- A reconcile of three machines, one of which is to be remediated.
use cluster_api_control_plan.Base.{
  ℕ, ◌≡◌, ◌⊎◌, Bool, true, false, Option, none, some, List, [], ◌∷◌, refl, Result, ok, String,
}
use cluster_api_control_plan.Objects.{Machine, RemediationData}
use cluster_api_control_plan.Remediation.Limits.{Verdict, go, data_for}
use cluster_api_control_plan.Remediation.Api.{Api, done}
use cluster_api_control_plan.Remediation.Checks.{may_remediate}
use cluster_api_control_plan.Remediation.Unhealthy.{reconcile_unhealthy_machines}
use cluster_api_control_plan.Remediation.Unhealthy.Deletions.{deletions}
use cluster_api_control_plan.Remediation.Unhealthy.Effects.{
  IsDeletionOf, reconcile_unhealthy_machines_cases,
}
use cluster_api_control_plan.Samples.{cp_a, cp_b, cp_c, control_plane, cluster, library, statuses}

abbrev api : Api
api = record {
  helper = λ _. none;
  patch = λ _. done;
  delete = λ _. done;
  patch_control_plane = none;
  has_etcd_data = λ _. ok false;
}

abbrev machines : List Machine
machines = cp_a ∷ cp_b ∷ cp_c ∷ []

b_is_deleted :
    deletions
      (reconcile_unhealthy_machines library api
        (some cluster)
        statuses
        90
        control_plane
        machines).effects
    ≡ "cp-b" ∷ []
unfolding reconcile_unhealthy_machines
    cluster_api_control_plan.Remediation.Cleanup.cleanup_owner_remediated
    cluster_api_control_plan.Base.lookup
    cluster_api_control_plan.Remediation.Unhealthy.reconcile_target
    cluster_api_control_plan.Remediation.Target.machine_to_be_remediated
    cluster_api_control_plan.Remediation.Unhealthy.patch_target
    cluster_api_control_plan.Remediation.Unhealthy.end_with may_remediate
    cluster_api_control_plan.Remediation.Progress.reconcile_remediation_in_progress
    cluster_api_control_plan.Remediation.Limits.check_remediation_retry_limits
    cluster_api_control_plan.Remediation.Limits.recorded_on cluster_api_control_plan.Base.insert
    cluster_api_control_plan.Etcd.Names.etcd_member_matches_machine
b_is_deleted = refl

reconcile_unhealthy_machines_cases_example :
    let o =
      reconcile_unhealthy_machines library api (some cluster) statuses 90 control_plane machines in
    (deletions o.effects ≡ [])
    ⊎ ((target : Machine) × (d : RemediationData) × IsDeletionOf library api
          (some cluster)
          statuses
          90
          control_plane
          machines
          target
          d
          o)
reconcile_unhealthy_machines_cases_example =
    reconcile_unhealthy_machines_cases library api (some cluster) statuses 90 control_plane machines
