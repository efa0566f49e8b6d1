-- ===== src/Scale/Up.antt =====
-- controllers/scale.go and controllers/upgrade.go: the scale-up, and the rollout.
pub mod Once
pub mod Surge
mod Tests
use cluster_api_control_plan.Base.{
  ℕ, ℤ, Bool, true, false, Option, none, some, List, [], ◌∷◌, String, length, if◌then◌else◌,
  Message, Error, Result, say, counts, below_sum,
}
use cluster_api_control_plan.Objects.{
  Machine, ControlPlaneObject, Library, StrategyType, rolling, RolloutStrategy, RollingUpdate,
}
use cluster_api_control_plan.Remediation.Api.{Answer}
use cluster_api_control_plan.Quorum.{Statuses}
use cluster_api_control_plan.Preflight.Nodes.{NodeCalls}
use cluster_api_control_plan.Preflight.Checks.{preflight_checks_for_scale_up}
use cluster_api_control_plan.Scale.{FailureDomain}
use cluster_api_control_plan.Scale.Down
use cluster_api_control_plan.Scale.Down.{
  EventResult, resized, hold_scale_operation, scale_down_control_plane,
}
use cluster_api_control_plan.Rollout.{ControlPlane}
use cluster_api_control_plan.Boot
use cluster_api_control_plan.Boot.{LabelRules, boot_control_plane, report_failure}

-- What a scale operation meets: the Talos API of the nodes, the deletion of a machine, the creation
-- of one, the choices of Cluster API, and what the etcd health check recorded.
pub record World : Type 0 where
  pub components : List String
  pub nodes : Machine → Result NodeCalls
  pub watch : Machine → Option Error
  pub events : List EventResult
  pub delete : Machine → Answer
  pub boot : Boot.Env
  pub rules : LabelRules
  pub cluster_name : String
  pub pick_fewest : List FailureDomain → List Machine → List Machine → String
  pub pick_most : List FailureDomain → List Machine → List Machine → String
  pub statuses : Statuses

pub data Effect : Type 0 where
  boots : Boot.Effect → Effect
  scales : Down.Effect → Effect

pub record Outcome : Type 0 where
  pub tcp : ControlPlaneObject
  pub effects : List Effect
  pub requeue_after : ℕ
  pub error : Option Error

abbrev pub booting_effects : List Boot.Effect → List Effect
booting_effects [] = []
booting_effects (e ∷ es) = boots e ∷ booting_effects es

abbrev pub scaling_effects : List Down.Effect → List Effect
scaling_effects [] = []
scaling_effects (e ∷ es) = scales e ∷ scaling_effects es

abbrev pub from_boot : Boot.Outcome → Outcome
from_boot o = record {
  tcp = o.tcp;
  effects = booting_effects o.effects;
  requeue_after = o.requeue_after;
  error = o.error;
}

abbrev pub from_down : Down.Outcome → Outcome
from_down o = record {
  tcp = o.tcp;
  effects = scaling_effects o.effects;
  requeue_after = o.requeue_after;
  error = o.error;
}

abbrev pub idle : ControlPlaneObject → Option Error → Outcome
idle tcp e = record { tcp = tcp; effects = []; requeue_after = 0; error = e }

abbrev pub scale_up_summary : ControlPlaneObject → List Machine → Message
scale_up_summary tcp machines =
    Message.replicas_of "Scaling up control plane to replicas (actual)" tcp.replicas
      (length machines)

module _ (lib : Library) (w : World) (cp : ControlPlane) (tcp : ControlPlaneObject) where
  -- The creation that follows the preflight checks of a scale-up.
  unfoldable pub scale_up_boot : Boot.Outcome
  scale_up_boot =
      report_failure "FailedScaleUp" "Failed to create additional control plane Machine" (
        boot_control_plane lib w.rules w.pick_fewest w.boot w.cluster_name cp
          (resized "ScalingUp" (scale_up_summary tcp cp.machines) tcp))

  unfoldable pub scale_up_control_plane : Outcome
  scale_up_control_plane =
      elim (preflight_checks_for_scale_up w.components w.nodes tcp w.statuses cp.machines) [
        | some failures ↦
            from_down
              (hold_scale_operation "ScalingUp" (scale_up_summary tcp cp.machines) failures tcp)
        | none ↦ from_boot scale_up_boot
      ]

  unfoldable pub scale_down : List Machine → Outcome
  scale_down outdated = from_down (
      scale_down_control_plane w.components w.nodes w.watch w.events w.delete lib w.pick_most
        cp.domains tcp cp.machines outdated)

  -- The call of a method on a nil pointer panics, which the controller's runtime turns into an error.
  abbrev pub roll : Option ℤ → List Machine → Outcome
  roll none outdated = idle tcp (some (say "invalid memory address or nil pointer dereference"))
  roll (some surge) outdated =
      if below_sum (length cp.machines) tcp.replicas surge
      then scale_up_control_plane
      else scale_down outdated

  abbrev pub upgrade_as : StrategyType → RollingUpdate → List Machine → Outcome
  upgrade_as rolling r outdated = roll r.max_surge outdated
  upgrade_as _ r outdated = idle tcp none

  abbrev pub upgrade_with : Option RolloutStrategy → List Machine → Outcome
  upgrade_with none outdated = idle tcp (some (say "rolloutStrategy is not set"))
  upgrade_with (some s) outdated = elim s.rolling_update [
    | none ↦ idle tcp (some (say "rolloutStrategy is not set"))
    | some r ↦ upgrade_as s.kind r outdated
  ]

  unfoldable pub upgrade_control_plane : List Machine → Outcome
  upgrade_control_plane outdated = upgrade_with tcp.strategy outdated
