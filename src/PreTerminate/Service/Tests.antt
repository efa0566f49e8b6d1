-- ===== src/PreTerminate/Service/Tests.antt =====
-- A pass over three machines, one or two of which are being deleted.
use cluster_api_control_plan.Base.{◌≡◌, ◌⊎◌, inl, inr, Option, none, some, List, [], ◌∷◌, refl, In}
use cluster_api_control_plan.Objects.{Machine}
use cluster_api_control_plan.PreTerminate.Hook.{Env, pre_terminate_requeue_after}
use cluster_api_control_plan.PreTerminate.Service.{service_pre_terminate_hooks}
use cluster_api_control_plan.PreTerminate.Service.Laws.{
  IsOldest, service_pre_terminate_hooks-IsOldest,
}
use cluster_api_control_plan.Samples.{cp_a, cp_c, deleting_b, cluster, control_plane, dial}

abbrev env : Env
env = record {
  helper = λ _. none;
  patch = λ _. none;
  configured_timeout = 0;
  now = 100;
  later = 100;
}

abbrev machines : List Machine
machines = cp_a ∷ deleting_b ∷ cp_c ∷ []

b_is_serviced :
    (service_pre_terminate_hooks env dial cluster control_plane machines).serviced ≡ some deleting_b
unfolding service_pre_terminate_hooks cluster_api_control_plan.Base.lookup
    cluster_api_control_plan.PreTerminate.Membership.reconcile_hook_for_machine
    cluster_api_control_plan.PreTerminate.Membership.is_waiting
    cluster_api_control_plan.PreTerminate.Hook.and_then
    cluster_api_control_plan.PreTerminate.Hook.stamp_etcd_cleanup_observed_at
    cluster_api_control_plan.PreTerminate.Membership.resolve
    cluster_api_control_plan.PreTerminate.Membership.resolve_with_peer
    cluster_api_control_plan.PreTerminate.Membership.select_etcd_peer
    cluster_api_control_plan.PreTerminate.Membership.resolve_with_client
    cluster_api_control_plan.PreTerminate.Membership.list_etcd_members
    cluster_api_control_plan.PreTerminate.Membership.resolve_member
    cluster_api_control_plan.Etcd.Names.identify_etcd_member
    cluster_api_control_plan.PreTerminate.Membership.quorum_after_removal
    cluster_api_control_plan.PreTerminate.Hook.mark_etcd_leaving
    cluster_api_control_plan.Base.insert
    cluster_api_control_plan.PreTerminate.Membership.remove_member
    cluster_api_control_plan.PreTerminate.Membership.etcd_leave_from_victim
    cluster_api_control_plan.PreTerminate.Hook.release_with_event
b_is_serviced = refl

service_pre_terminate_hooks-IsOldest_example : IsOldest machines deleting_b
service_pre_terminate_hooks-IsOldest_example =
    service_pre_terminate_hooks-IsOldest env dial cluster control_plane machines deleting_b
      b_is_serviced
