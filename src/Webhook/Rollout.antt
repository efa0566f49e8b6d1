-- ===== src/Webhook/Rollout.antt =====
-- A rollout of a control plane that passed the webhook.
use cluster_api_control_plan.Base.{
  ℤ, pos, ◌≡◌, ◌≢◌, ◌⊎◌, inl, inr, false, Option, none, some, List, [], length, below_sum,
  Bool-cases, Option-cases, refl,
}
use cluster_api_control_plan.Objects.{
  Machine, ControlPlaneObject, Library, StrategyType, unset, rolling, on_delete, other_strategy,
  RollingUpdate, RolloutStrategy,
}
use cluster_api_control_plan.Rollout.{ControlPlane, is_on_delete, machines_needing_rollout}
use cluster_api_control_plan.Scale.Up.{
  World, Outcome, scale_up_control_plane, scale_down, roll, upgrade_with, upgrade_control_plane,
}
use cluster_api_control_plan.Webhook.{
  default_surge, default_type, default_strategy_of, default_rollout_strategy, validate_type,
  validate_rollout_strategy,
}

abbrev rolled_out : Option RollingUpdate → RolloutStrategy
rolled_out u = record { kind = rolling; rolling_update = some (default_surge u) }

module _ (lib : Library) (w : World) (cp : ControlPlane) where
  -- The outcome is that of a scale-up, or of a scale-down.
  abbrev pub ScalesBy : ControlPlaneObject → Outcome → List Machine → Type 0
  ScalesBy tcp o outdated =
      (o ≡ scale_up_control_plane lib w cp tcp) ⊎ (o ≡ scale_down lib w cp tcp outdated)

  abbrev pub Scales : ControlPlaneObject → List Machine → Type 0
  Scales tcp outdated = ScalesBy tcp (upgrade_control_plane lib w cp tcp outdated) outdated

  roll_scales :
      (tcp : ControlPlaneObject) (z : ℤ) (outdated : List Machine)
      → ScalesBy tcp (roll lib w cp tcp (some z) outdated) outdated
  roll_scales tcp z outdated = elim (Bool-cases (below_sum (length cp.machines) tcp.replicas z)) [
    | inl t ↦ inl (rw t refl)
    | inr f ↦ inr (rw f refl)
  ]

  surged :
      (tcp : ControlPlaneObject) (u : Option RollingUpdate) (outdated : List Machine)
      → ScalesBy tcp (upgrade_with lib w cp tcp (some (rolled_out u)) outdated) outdated
  surged tcp none outdated = roll_scales tcp (pos 1) outdated
  surged tcp (some r) outdated = elim (Option-cases r.max_surge) [
    | inl e ↦ simp e (roll_scales tcp (pos 1) outdated)
    | inr (z, e) ↦ simp e (roll_scales tcp z outdated)
  ]

  typed :
      (tcp : ControlPlaneObject) (kind : StrategyType) (u : Option RollingUpdate)
      (outdated : List Machine)
      → validate_type kind ≡ []
      → is_on_delete lib tcp (some (default_type kind u)) ≡ false
      → ScalesBy tcp (upgrade_with lib w cp tcp (some (default_type kind u)) outdated) outdated
  typed tcp unset u outdated v d = surged tcp u outdated
  typed tcp rolling u outdated v d = surged tcp u outdated
  typed tcp on_delete u outdated v d = cc
  typed tcp other_strategy u outdated v d = cc

  defaulted :
      (tcp : ControlPlaneObject) (s : Option RolloutStrategy) (outdated : List Machine)
      → validate_rollout_strategy s ≡ []
      → is_on_delete lib tcp (some (default_strategy_of s)) ≡ false
      → ScalesBy tcp (upgrade_with lib w cp tcp (some (default_strategy_of s)) outdated) outdated
  unfolding validate_rollout_strategy
  defaulted tcp none outdated v d = surged tcp none outdated
  defaulted tcp (some s) outdated v d = typed tcp s.kind s.rolling_update outdated v d

  needing→rolls :
      (tcp : ControlPlaneObject)
      → machines_needing_rollout lib tcp cp ≢ []
      → is_on_delete lib tcp tcp.strategy ≡ false
  unfolding machines_needing_rollout
  needing→rolls tcp h = elim (Bool-cases (is_on_delete lib tcp tcp.strategy)) [
    | inl t ↦ absurd (h (rw t refl))
    | inr f ↦ f
  ]

  submitted_scales :
      (tcp : ControlPlaneObject) (submitted strategy : Option RolloutStrategy)
      (outdated : List Machine)
      → validate_rollout_strategy submitted ≡ []
      → strategy ≡ some (default_strategy_of submitted)
      → is_on_delete lib tcp strategy ≡ false
      → ScalesBy tcp (upgrade_with lib w cp tcp strategy outdated) outdated
  submitted_scales tcp submitted strategy outdated v e d =
      rw e (defaulted tcp submitted outdated v (rw e at d))

  -- If the strategy is one that validation accepts, with its defaults, and a machine needs a rollout,
  -- the rollout ends as a scale-up or as a scale-down does.
  pub upgrade_control_plane-Scales :
      (tcp : ControlPlaneObject) (submitted : Option RolloutStrategy)
      → validate_rollout_strategy submitted ≡ []
      → tcp.strategy ≡ default_rollout_strategy submitted
      → machines_needing_rollout lib tcp cp ≢ []
      → Scales tcp (machines_needing_rollout lib tcp cp)
  unfolding default_rollout_strategy upgrade_control_plane
  upgrade_control_plane-Scales tcp submitted v e h =
      submitted_scales tcp submitted tcp.strategy (machines_needing_rollout lib tcp cp) v e
        (needing→rolls tcp h)
