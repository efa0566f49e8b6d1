-- ===== src/Preflight/Checks/Tests.antt =====
-- The checks in front of a scale operation, on a healthy control plane and on one under remediation.
use cluster_api_control_plan.Base.{
  String, ◌≡◌, ◌⊎◌, Bool, true, false, Option, none, some, List, [], ◌∷◌, refl, Result, ok, say,
}
use cluster_api_control_plan.Objects.{Machine, ControlPlaneObject, holds}
use cluster_api_control_plan.Preflight.Nodes.{NodeCalls}
use cluster_api_control_plan.Preflight.Checks.{
  preflight_checks, preflight_checks_for_scale_up, etcd_cluster_healthy,
}
use cluster_api_control_plan.Preflight.Checks.Laws.{
  IsReady, IsJoinable, preflight_checks_for_scale_up-MayJoin,
}
use cluster_api_control_plan.Samples.{cp_a, cp_c, control_plane, statuses}

abbrev components : List String
components = "kube-apiserver" ∷ []

abbrev healthy_node : Machine → Result NodeCalls
healthy_node m = ok (record {
  service_list =
      ok (record { id = "kubelet"; state = "Running"; unknown = false; healthy = true } ∷ []);
  static_pod_statuses = ok (record { id = "kube-system/kube-apiserver-x"; ready = true } ∷ []);
})

abbrev healthy_plane : ControlPlaneObject
healthy_plane = record control_plane {
  conditions =
      (etcd_cluster_healthy, record { status = holds; reason = ""; message = say "" }) ∷ [];
}

abbrev others : List Machine
others = cp_c ∷ []

may_start : preflight_checks components healthy_node healthy_plane (cp_a ∷ others) [] ≡ none
unfolding preflight_checks cluster_api_control_plan.Preflight.Nodes.nodes_healthcheck
    cluster_api_control_plan.Etcd.Health.health_checkable cluster_api_control_plan.Base.lookup
    cluster_api_control_plan.Preflight.Nodes.component_error
may_start = refl

may_scale_up :
    preflight_checks_for_scale_up components healthy_node healthy_plane statuses (cp_a ∷ others)
    ≡ none
unfolding preflight_checks_for_scale_up cluster_api_control_plan.Preflight.Nodes.nodes_healthcheck
    cluster_api_control_plan.Etcd.Health.health_checkable cluster_api_control_plan.Base.lookup
    cluster_api_control_plan.Preflight.Nodes.component_error
may_scale_up = refl

preflight_checks_for_scale_up-MayJoin_example :
    IsReady components healthy_node healthy_plane (cp_a ∷ others) []
    ⊎ IsJoinable components healthy_node healthy_plane statuses (cp_a ∷ others)
preflight_checks_for_scale_up-MayJoin_example =
    preflight_checks_for_scale_up-MayJoin components healthy_node healthy_plane statuses cp_a others
      may_scale_up
