-- ===== src/Scale/Up/Once.antt =====
-- A scale operation creates or deletes one machine at most.
use cluster_api_control_plan.Base.{
  ℤ, below_sum, Bool-cases, ◌≤◌, ◌≡◌, inl, inr, Bool, Option, none, some, List, [], ◌∷◌, length,
  count, In, arith, refl, Option-cases,
}
use cluster_api_control_plan.Objects.{
  Machine, ControlPlaneObject, Library, StrategyType, unset, rolling, on_delete, other_strategy,
  RollingUpdate, RolloutStrategy,
}
use cluster_api_control_plan.Preflight.Checks.{preflight_checks_for_scale_up}
use cluster_api_control_plan.Scale.Down
use cluster_api_control_plan.Scale.Down.{
  EventResult, resized, deleted, hold_scale_operation, delete_control_plane_machine,
  after_preflight, scale_down_victim, scale_down_control_plane, ensure_nodes_booted,
  boot_check_machines, summary_of,
}
use cluster_api_control_plan.Rollout.{ControlPlane}
use cluster_api_control_plan.Boot
use cluster_api_control_plan.Boot.{
  creates_machine, report_failure, boot_control_plane, after_create, after_config, after_clone,
  after_template, after_name, asked, LabelRules,
}
use cluster_api_control_plan.Scale.Up.{
  World, Effect, boots, scales, booting_effects, scaling_effects, scale_up_summary, scale_up_boot,
  scale_up_control_plane, scale_down, roll, upgrade_as, upgrade_with, upgrade_control_plane,
}
use cluster_api_control_plan.Boot.Once.{is_creation, boot_control_plane-once, report_failure-once}
use cluster_api_control_plan.Scale.Down.Once.{is_deletion, scale_down_control_plane-once}

pub In-booting :
    (e : Boot.Effect) (es : List Boot.Effect) → In (boots e) (booting_effects es) → In e es
In-booting e [] n = absurd n
In-booting e (x ∷ xs) (inl p) = inl (cc)
In-booting e (x ∷ xs) (inr n) = inr (In-booting e xs n)

pub scales-booting :
    (d : Down.Effect) (es : List Boot.Effect) → ¬ (In (scales d) (booting_effects es))
scales-booting d [] n = absurd n
scales-booting d (x ∷ xs) (inl p) = cc
scales-booting d (x ∷ xs) (inr n) = scales-booting d xs n

pub In-scaling :
    (d : Down.Effect) (es : List Down.Effect) → In (scales d) (scaling_effects es) → In d es
In-scaling d [] n = absurd n
In-scaling d (x ∷ xs) (inl p) = inl (cc)
In-scaling d (x ∷ xs) (inr n) = inr (In-scaling d xs n)

pub boots-scaling :
    (e : Boot.Effect) (es : List Down.Effect) → ¬ (In (boots e) (scaling_effects es))
boots-scaling e [] n = absurd n
boots-scaling e (x ∷ xs) (inl p) = cc
boots-scaling e (x ∷ xs) (inr n) = boots-scaling e xs n

-- The effect creates or deletes a machine.
abbrev pub is_change : Effect → Bool
is_change (boots e) = is_creation e
is_change (scales d) = is_deletion d

pub booting-count :
    (es : List Boot.Effect) → count is_change (booting_effects es) ≡ count is_creation es
booting-count [] = refl
booting-count (e ∷ es) = ground (arith, booting-count es)

scaling-count :
    (es : List Down.Effect) → count is_change (scaling_effects es) ≡ count is_deletion es
scaling-count [] = refl
scaling-count (e ∷ es) = ground (arith, scaling-count es)

module _ (lib : Library) (w : World) (cp : ControlPlane) (tcp : ControlPlaneObject) where
  scale_up_boot-once : count is_creation (scale_up_boot lib w cp tcp).effects ≤ 1
  unfolding scale_up_boot
  scale_up_boot-once = omega (
    arith,
    report_failure-once "FailedScaleUp" "Failed to create additional control plane Machine" (
        boot_control_plane lib w.rules w.pick_fewest w.boot w.cluster_name cp
          (resized "ScalingUp" (scale_up_summary tcp cp.machines) tcp)),
    boot_control_plane-once lib w.rules w.pick_fewest w.boot w.cluster_name cp
        (resized "ScalingUp" (scale_up_summary tcp cp.machines) tcp),
  )

  pub scale_up_control_plane-once :
      count is_change (scale_up_control_plane lib w cp tcp).effects ≤ 1
  unfolding scale_up_control_plane hold_scale_operation
  scale_up_control_plane-once =
      elim (Option-cases
        (preflight_checks_for_scale_up w.components w.nodes tcp w.statuses cp.machines)) [
          | inl e ↦
              rw (e, scale_up_control_plane)
                (omega
                  (arith, booting-count (scale_up_boot lib w cp tcp).effects, scale_up_boot-once))
          | inr (f, e) ↦ rw (e, scale_up_control_plane) (omega arith)
        ]

  pub scale_down-once :
      (outdated : List Machine) → count is_change (scale_down lib w cp tcp outdated).effects ≤ 1
  unfolding scale_down
  scale_down-once outdated = omega (
    arith,
    scaling-count
        (scale_down_control_plane w.components w.nodes w.watch w.events w.delete lib w.pick_most
          cp.domains tcp cp.machines outdated).effects,
    scale_down_control_plane-once w.components w.nodes w.watch w.events w.delete lib w.pick_most
        cp.domains tcp cp.machines outdated,
  )

  roll-once :
      (surge : Option ℤ) (outdated : List Machine)
      → count is_change (roll lib w cp tcp surge outdated).effects ≤ 1
  roll-once none outdated = omega arith
  roll-once (some z) outdated = elim (Bool-cases (below_sum (length cp.machines) tcp.replicas z)) [
    | inl t ↦ rw t scale_up_control_plane-once
    | inr f ↦ rw f (scale_down-once outdated)
  ]

  upgrade_as-once :
      (kind : StrategyType) (r : RollingUpdate) (outdated : List Machine)
      → count is_change (upgrade_as lib w cp tcp kind r outdated).effects ≤ 1
  upgrade_as-once rolling r outdated = roll-once r.max_surge outdated
  upgrade_as-once unset r outdated = omega arith
  upgrade_as-once on_delete r outdated = omega arith
  upgrade_as-once other_strategy r outdated = omega arith

  pub upgrade_control_plane-once :
      (outdated : List Machine)
      → count is_change (upgrade_control_plane lib w cp tcp outdated).effects ≤ 1
  unfolding upgrade_control_plane
  upgrade_control_plane-once outdated = of tcp.strategy
    where
      of :
          (s : Option RolloutStrategy)
          → count is_change (upgrade_with lib w cp tcp s outdated).effects ≤ 1
      of none = omega arith
      of (some s) = elim (Option-cases s.rolling_update) [
        | inl e ↦ rw e (omega arith)
        | inr (r, e) ↦ rw e (upgrade_as-once s.kind r outdated)
      ]
