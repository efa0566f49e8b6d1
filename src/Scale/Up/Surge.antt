-- ===== src/Scale/Up/Surge.antt =====
-- How far a rollout goes above the desired replicas, and when it takes a machine away.
use cluster_api_control_plan.Base.{
  ℕ, ℤ, ◌≡◌, ◌⊎◌, inl, inr, Bool, true, false, Option, none, some, List, [], ◌∷◌, String, length,
  below_sum, below_exact_sum, Fits, below_sum-exact, sym, ◌∙◌, In, refl, Bool-cases, Option-cases,
}
use cluster_api_control_plan.Objects.{
  Machine, ControlPlaneObject, Library, StrategyType, unset, rolling, on_delete, other_strategy,
  RollingUpdate, RolloutStrategy,
}
use cluster_api_control_plan.Preflight.Checks.{preflight_checks_for_scale_up}
use cluster_api_control_plan.Preflight.Checks.Laws.{
  IsReady, IsJoinable, preflight_checks_for_scale_up-MayJoin,
}
use cluster_api_control_plan.Scale.Down.{deleted, hold_scale_operation, scale_down_control_plane}
use cluster_api_control_plan.Scale.Down.Laws.{IsSafeDown, scale_down_control_plane-IsSafeDown}
use cluster_api_control_plan.Rollout.{ControlPlane}
use cluster_api_control_plan.Boot.{creates_machine}
use cluster_api_control_plan.Scale.Up.Once.{In-scaling, scales-booting, boots-scaling}
use cluster_api_control_plan.Scale.Up.{
  World, Effect, boots, scales, scale_up_control_plane, scale_down, scale_up_boot, roll, upgrade_as,
  upgrade_with, upgrade_control_plane,
}

abbrev pub Creates : List Effect → Type 0
Creates effects = (m : Machine) × In (boots (creates_machine m)) effects

abbrev pub Deletes : String → List Effect → Type 0
Deletes name effects = In (scales (deleted name)) effects

-- The strategy is a rolling update that may surge by `z` machines.
pub record IsRolling (strategy : Option RolloutStrategy) (z : ℤ) : Type 0 where
  pub set : RolloutStrategy
  pub is_set : strategy ≡ some set
  pub rolls : set.kind ≡ rolling
  pub update : RollingUpdate
  pub updates : set.rolling_update ≡ some update
  pub surges : update.max_surge ≡ some z

-- There are fewer machines than the replicas and the surge, or as many at least, as int32 adds them,
-- and as integers where the sum does not overflow.
abbrev pub HasRoom : Bool → ℤ → Option RolloutStrategy → ℕ → Type 0
HasRoom b replicas strategy n =
    (z : ℤ) × IsRolling strategy z
    × (below_sum n replicas z ≡ b)
    × (Fits n replicas z → below_exact_sum n replicas z ≡ b)

module _ (lib : Library) (w : World) (cp : ControlPlane) (tcp : ControlPlaneObject) where
  -- The control plane can take one more machine, if it has any.
  abbrev pub MayJoin : Type 0
  MayJoin =
      (cp.machines ≡ [])
      ⊎ IsReady w.components w.nodes tcp cp.machines []
      ⊎ IsJoinable w.components w.nodes tcp w.statuses cp.machines

  abbrev pub SafeDown : List Machine → String → Type 0
  SafeDown outdated name =
      IsSafeDown w.components w.nodes w.watch w.events w.delete lib w.pick_most cp.domains tcp
        cp.machines outdated name
        (scale_down_control_plane w.components w.nodes w.watch w.events w.delete lib w.pick_most
          cp.domains tcp cp.machines outdated)

  joins :
      (machines : List Machine)
      → cp.machines ≡ machines
      → preflight_checks_for_scale_up w.components w.nodes tcp w.statuses machines ≡ none
      → MayJoin
  joins [] e h = inl e
  joins (m ∷ ms) e h =
      rw e (inr (preflight_checks_for_scale_up-MayJoin w.components w.nodes tcp w.statuses m ms h))

  pub scale_up-creates : Creates (scale_up_control_plane lib w cp tcp).effects → MayJoin
  unfolding scale_up_control_plane
  scale_up-creates (m, n) =
      elim (Option-cases
        (preflight_checks_for_scale_up w.components w.nodes tcp w.statuses cp.machines)) [
          | inl e ↦ joins cp.machines refl e
          | inr (f, e) ↦
              absurd (boots-scaling (creates_machine m) _ (rw (e, scale_up_control_plane) at n))
        ]

  pub scale_up-Deletes :
      (name : String) → ¬ (Deletes name (scale_up_control_plane lib w cp tcp).effects)
  unfolding scale_up_control_plane hold_scale_operation
  scale_up-Deletes name n =
      elim (Option-cases
        (preflight_checks_for_scale_up w.components w.nodes tcp w.statuses cp.machines)) [
          | inl e ↦
              scales-booting (deleted name) (scale_up_boot lib w cp tcp).effects
                (rw (e, scale_up_control_plane) at n)
          | inr (f, e) ↦ elim (rw (e, scale_up_control_plane) at n) [
            | inl p ↦ cc
            | inr k ↦ absurd k
          ]
        ]

  pub scale_down-Creates :
      (outdated : List Machine) → ¬ (Creates (scale_down lib w cp tcp outdated).effects)
  unfolding scale_down
  scale_down-Creates outdated (m, n) = boots-scaling (creates_machine m) _ n

  pub scale_down-Deletes :
      (outdated : List Machine) (name : String)
      → Deletes name (scale_down lib w cp tcp outdated).effects
      → SafeDown outdated name
  unfolding scale_down
  scale_down-Deletes outdated name n =
      scale_down_control_plane-IsSafeDown w.components w.nodes w.watch w.events w.delete lib
        w.pick_most cp.domains tcp cp.machines outdated name (In-scaling (deleted name) _ n)

  -- What a rollout may do with the strategy, the replicas and the machines that there are.
  pub record IsPaced (strategy : Option RolloutStrategy) (outdated : List Machine)
      (effects : List Effect) : Type 0 where
    pub grows : Creates effects → HasRoom true tcp.replicas strategy (length cp.machines) × MayJoin
    pub shrinks :
        (name : String)
        → Deletes name effects
        → HasRoom false tcp.replicas strategy (length cp.machines) × SafeDown outdated name

  still :
      (strategy : Option RolloutStrategy) (outdated : List Machine) → IsPaced strategy outdated []
  still strategy outdated = record { grows = λ (m, n). absurd n; shrinks = λ name n. absurd n }

  roll-IsPaced :
      (strategy : Option RolloutStrategy) (outdated : List Machine) (surge : Option ℤ)
      → ((z : ℤ) → surge ≡ some z → IsRolling strategy z)
      → IsPaced strategy outdated (roll lib w cp tcp surge outdated).effects
  roll-IsPaced strategy outdated none is = still strategy outdated
  roll-IsPaced strategy outdated (some z) is =
      elim (Bool-cases (below_sum (length cp.machines) tcp.replicas z)) [
        | inl t ↦ rw t (record {
          grows = λ c. ((z, is z refl, t, exact z t), scale_up-creates c);
          shrinks = λ name d. absurd (scale_up-Deletes name d);
        })
        | inr f ↦ rw f (record {
          grows = λ c. absurd (scale_down-Creates outdated c);
          shrinks = λ name d. ((z, is z refl, f, exact z f), scale_down-Deletes outdated name d);
        })
      ]
    where
      exact :
          {b : Bool} (z : ℤ)
          → below_sum (length cp.machines) tcp.replicas z ≡ b
          → Fits (length cp.machines) tcp.replicas z
          → below_exact_sum (length cp.machines) tcp.replicas z ≡ b
      exact z e fits = sym (below_sum-exact (length cp.machines) tcp.replicas z fits) ∙ e

  upgrade_as-IsPaced :
      (strategy : Option RolloutStrategy) (outdated : List Machine) (kind : StrategyType)
      (r : RollingUpdate)
      → (kind ≡ rolling → (z : ℤ) → r.max_surge ≡ some z → IsRolling strategy z)
      → IsPaced strategy outdated (upgrade_as lib w cp tcp kind r outdated).effects
  upgrade_as-IsPaced strategy outdated rolling r is =
      roll-IsPaced strategy outdated r.max_surge (is refl)
  upgrade_as-IsPaced strategy outdated unset r is = still strategy outdated
  upgrade_as-IsPaced strategy outdated on_delete r is = still strategy outdated
  upgrade_as-IsPaced strategy outdated other_strategy r is = still strategy outdated

  upgrade_with-IsPaced :
      (strategy : Option RolloutStrategy) (outdated : List Machine)
      → IsPaced strategy outdated (upgrade_with lib w cp tcp strategy outdated).effects
  upgrade_with-IsPaced none outdated = still none outdated
  upgrade_with-IsPaced (some s) outdated = elim (Option-cases s.rolling_update) [
    | inl e ↦ simp e (still (some s) outdated)
    | inr (r, e) ↦ simp e (
        upgrade_as-IsPaced (some s) outdated s.kind r (λ k z h. record {
          set = s;
          is_set = refl;
          rolls = k;
          update = r;
          updates = e;
          surges = h;
        }))
  ]

  -- A rollout creates a machine only under a rolling update with fewer machines than the replicas and
  -- the surge as int32 adds them, and if the control plane is ready or may be joined during a
  -- remediation; it deletes one only under a rolling update with as many machines as that, and only
  -- one that a scale-down may delete. Where the sum does not overflow, it is the sum of the integers.
  pub upgrade_control_plane-IsPaced :
      (outdated : List Machine)
      → IsPaced tcp.strategy outdated (upgrade_control_plane lib w cp tcp outdated).effects
  unfolding upgrade_control_plane
  upgrade_control_plane-IsPaced outdated = upgrade_with-IsPaced tcp.strategy outdated
