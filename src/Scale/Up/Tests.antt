-- ===== src/Scale/Up/Tests.antt =====
-- A rollout of one machine of three.
use cluster_api_control_plan.Base.{
  [], ◌∷◌, refl, inr, inl, In, lookup, below_sum, below_exact_sum, pos, negsuc, true, false, ◌≡◌,
}
use cluster_api_control_plan.Boot.{creates_config}
use cluster_api_control_plan.Scale.Up.{upgrade_control_plane, boots}
use cluster_api_control_plan.Scale.Up.Surge.{IsPaced, upgrade_control_plane-IsPaced}
use cluster_api_control_plan.Samples.{library, talos_config}
use cluster_api_control_plan.Samples.Worlds.{rolling_plane, mixed, old_a, up_world}

-- A fourth machine is created first.
surges :
    In
      (boots (creates_config "cp-d" talos_config))
      (upgrade_control_plane library up_world mixed rolling_plane (old_a ∷ [])).effects
unfolding upgrade_control_plane lookup below_sum
    cluster_api_control_plan.Scale.Up.scale_up_control_plane
    cluster_api_control_plan.Scale.Up.scale_up_boot cluster_api_control_plan.Boot.report_failure
    cluster_api_control_plan.Boot.boot_control_plane
    cluster_api_control_plan.Remediation.Progress.clear_remediation_in_progress
    cluster_api_control_plan.Remediation.Progress.remediation_in_progress
    cluster_api_control_plan.Preflight.Checks.preflight_checks_for_scale_up
    cluster_api_control_plan.Preflight.Checks.preflight_checks
    cluster_api_control_plan.Preflight.Nodes.nodes_healthcheck
    cluster_api_control_plan.Etcd.Health.health_checkable
    cluster_api_control_plan.Preflight.Nodes.component_error
surges = inr (inl refl)

-- The largest surge that the API accepts as a number makes the sum negative.
large_surge_wraps : below_sum 3 (pos 3) (pos 2147483647) ≡ false
unfolding below_sum
large_surge_wraps = refl

large_surge_exact : below_exact_sum 3 (pos 3) (pos 2147483647) ≡ true
large_surge_exact = refl

surge_of_one : below_sum 3 (pos 3) (pos 1) ≡ true
unfolding below_sum
surge_of_one = refl

surge_below_zero : below_sum 3 (pos 3) (negsuc 0) ≡ false
unfolding below_sum
surge_below_zero = refl

negative_replicas : below_sum 0 (negsuc 2) (pos 1) ≡ false
unfolding below_sum
negative_replicas = refl

upgrade_control_plane-IsPaced_example :
    IsPaced library up_world mixed rolling_plane rolling_plane.strategy
      (old_a ∷ [])
      (upgrade_control_plane library up_world mixed rolling_plane (old_a ∷ [])).effects
upgrade_control_plane-IsPaced_example =
    upgrade_control_plane-IsPaced library up_world mixed rolling_plane (old_a ∷ [])
