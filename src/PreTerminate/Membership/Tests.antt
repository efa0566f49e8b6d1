-- ===== src/PreTerminate/Membership/Tests.antt =====
-- The handler at a machine that is being deleted, with two healthy peers.
use cluster_api_control_plan.Base.{◌≡◌, Bool, true, false, Option, none, some, List, [], ◌∷◌, refl}
use cluster_api_control_plan.Objects.{Machine}
use cluster_api_control_plan.PreTerminate.Hook.{Env, is_hooked, stamp_etcd_cleanup_observed_at}
use cluster_api_control_plan.PreTerminate.Membership.{is_waiting, reconcile_hook_for_machine}
use cluster_api_control_plan.PreTerminate.Membership.Calm.{changes_etcd}
use cluster_api_control_plan.PreTerminate.Membership.Laws.{
  IsAuthorized, reconcile_hook_for_machine-IsAuthorized,
}
use cluster_api_control_plan.PreTerminate.Membership.Release.{
  MayRelease, reconcile_hook_for_machine_released,
}
use cluster_api_control_plan.Samples.{cp_a, cp_c, deleting_b, cluster, control_plane, dial}

abbrev env : Env
env = record {
  helper = λ _. none;
  patch = λ _. none;
  configured_timeout = 0;
  now = 100;
  later = 100;
}

abbrev machines : List Machine
machines = cp_a ∷ deleting_b ∷ cp_c ∷ []

member_leaves :
    changes_etcd
      (reconcile_hook_for_machine env dial cluster control_plane machines deleting_b).effects
    ≡ true
unfolding reconcile_hook_for_machine is_waiting cluster_api_control_plan.Base.lookup
    cluster_api_control_plan.PreTerminate.Hook.and_then stamp_etcd_cleanup_observed_at
    cluster_api_control_plan.PreTerminate.Membership.resolve
    cluster_api_control_plan.PreTerminate.Membership.resolve_with_peer
    cluster_api_control_plan.PreTerminate.Membership.select_etcd_peer
    cluster_api_control_plan.PreTerminate.Membership.resolve_with_client
    cluster_api_control_plan.PreTerminate.Membership.list_etcd_members
    cluster_api_control_plan.PreTerminate.Membership.resolve_member
    cluster_api_control_plan.Etcd.Names.identify_etcd_member
    cluster_api_control_plan.PreTerminate.Membership.quorum_after_removal
    cluster_api_control_plan.PreTerminate.Hook.mark_etcd_leaving
    cluster_api_control_plan.Base.insert
    cluster_api_control_plan.PreTerminate.Membership.remove_member
    cluster_api_control_plan.PreTerminate.Membership.etcd_leave_from_victim
member_leaves = refl

reconcile_hook_for_machine-IsAuthorized_example :
    (is_waiting deleting_b ≡ true)
    × IsAuthorized env dial machines cluster control_plane
        (stamp_etcd_cleanup_observed_at env deleting_b).machine
reconcile_hook_for_machine-IsAuthorized_example =
    reconcile_hook_for_machine-IsAuthorized env dial machines cluster control_plane deleting_b
      member_leaves

had_hook : is_hooked deleting_b ≡ true
unfolding cluster_api_control_plan.Base.lookup
had_hook = refl

hook_is_released :
    is_hooked
      (reconcile_hook_for_machine env dial cluster control_plane machines deleting_b).machine
    ≡ false
unfolding cluster_api_control_plan.Base.lookup reconcile_hook_for_machine is_waiting
    cluster_api_control_plan.PreTerminate.Hook.and_then stamp_etcd_cleanup_observed_at
    cluster_api_control_plan.PreTerminate.Membership.resolve
    cluster_api_control_plan.PreTerminate.Membership.resolve_with_peer
    cluster_api_control_plan.PreTerminate.Membership.select_etcd_peer
    cluster_api_control_plan.PreTerminate.Membership.resolve_with_client
    cluster_api_control_plan.PreTerminate.Membership.list_etcd_members
    cluster_api_control_plan.PreTerminate.Membership.resolve_member
    cluster_api_control_plan.Etcd.Names.identify_etcd_member
    cluster_api_control_plan.PreTerminate.Membership.quorum_after_removal
    cluster_api_control_plan.PreTerminate.Hook.mark_etcd_leaving
    cluster_api_control_plan.Base.insert
    cluster_api_control_plan.PreTerminate.Membership.remove_member
    cluster_api_control_plan.PreTerminate.Membership.etcd_leave_from_victim
    cluster_api_control_plan.PreTerminate.Hook.release_with_event
    cluster_api_control_plan.Base.erase
hook_is_released = refl

reconcile_hook_for_machine_released_example :
    (is_waiting deleting_b ≡ true)
    × MayRelease env dial machines cluster control_plane
        (stamp_etcd_cleanup_observed_at env deleting_b).machine
reconcile_hook_for_machine_released_example =
    reconcile_hook_for_machine_released env dial machines cluster control_plane deleting_b had_hook
      hook_is_released
