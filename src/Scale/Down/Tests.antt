-- ===== src/Scale/Down/Tests.antt =====
-- A scale-down of three healthy machines, one of which is annotated for deletion.
use cluster_api_control_plan.Base.{
  ◌≡◌, inl, Bool, true, false, String, Option, none, some, List, [], ◌∷◌, refl, Result, ok, In, say,
  lookup,
}
use cluster_api_control_plan.Objects.{Machine, ControlPlaneObject, plain, holds}
use cluster_api_control_plan.Remediation.Api.{done}
use cluster_api_control_plan.Preflight.Nodes.{NodeCalls}
use cluster_api_control_plan.Preflight.Checks.{etcd_cluster_healthy}
use cluster_api_control_plan.Scale.{FailureDomain}
use cluster_api_control_plan.Scale.Down.{
  EventResult, boot_started, boot_stopped, deleted, boot_error, scale_down_control_plane,
}
use cluster_api_control_plan.Scale.Down.Laws.{IsSafeDown, scale_down_control_plane-IsSafeDown}
use cluster_api_control_plan.Samples.{cp_a, cp_b, cp_c, control_plane, library}

abbrev healthy_node : Machine → Result NodeCalls
healthy_node m = ok (record {
  service_list = ok [];
  static_pod_statuses = ok (record { id = "kube-system/kube-apiserver-x"; ready = true } ∷ []);
})

abbrev healthy_plane : ControlPlaneObject
healthy_plane = record control_plane {
  conditions =
      (etcd_cluster_healthy, record { status = holds; reason = ""; message = say "" }) ∷ [];
}

abbrev no_domain : List FailureDomain → List Machine → List Machine → String
no_domain _ _ _ = ""

abbrev machines : List Machine
machines = cp_a ∷ cp_b ∷ record cp_c { annotations = ("delete-machine", plain "") ∷ [] } ∷ []

abbrev booted : List EventResult
booted = boot_started "cp-a" ∷ boot_stopped "cp-a" ∷ []

all_booted : boot_error booted ≡ none
unfolding boot_error
all_booted = refl

c_is_deleted :
    In
      (deleted "cp-c")
      (scale_down_control_plane
        ("kube-apiserver" ∷ [])
        healthy_node
        (λ _. none)
        booted
        (λ _. done)
        library
        no_domain
        []
        healthy_plane
        machines
        []).effects
unfolding scale_down_control_plane cluster_api_control_plan.Scale.select_machine_for_scale_down
    cluster_api_control_plan.Scale.machine_in_failure_domain_with_most_machines
    cluster_api_control_plan.Scale.oldest cluster_api_control_plan.Scale.eligible lookup
    cluster_api_control_plan.Scale.failure_domain_with_most_machines
    cluster_api_control_plan.Preflight.Checks.preflight_checks
    cluster_api_control_plan.Preflight.Nodes.nodes_healthcheck
    cluster_api_control_plan.Etcd.Health.health_checkable
    cluster_api_control_plan.Preflight.Nodes.component_error cluster_api_control_plan.Base.insert
    cluster_api_control_plan.Scale.Down.ensure_nodes_booted
c_is_deleted = inl refl

scale_down_control_plane-IsSafeDown_example :
    IsSafeDown
      ("kube-apiserver" ∷ [])
      healthy_node
      (λ _. none)
      booted
      (λ _. done)
      library
      no_domain
      []
      healthy_plane
      machines
      []
      "cp-c"
      (scale_down_control_plane
        ("kube-apiserver" ∷ [])
        healthy_node
        (λ _. none)
        booted
        (λ _. done)
        library
        no_domain
        []
        healthy_plane
        machines
        [])
scale_down_control_plane-IsSafeDown_example =
    scale_down_control_plane-IsSafeDown ("kube-apiserver" ∷ []) healthy_node (λ _. none) booted
      (λ _. done) library no_domain [] healthy_plane machines [] "cp-c" c_is_deleted
