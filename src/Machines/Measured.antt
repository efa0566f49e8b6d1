-- ===== src/Machines/Measured.antt =====
-- What resizing and rolling out may do with a number of machines.
use cluster_api_control_plan.Base.{
  ℤ, is_below, is_above, IsBelow, IsAbove, is_below→IsBelow, is_above→IsAbove, ℕ, has_key, say, ◌≤◌,
  ◌≡◌, ◌⊎◌, inl, inr, true, false, Option, List, [], ◌∷◌, String, length, ltb, ◌==◌, refl, subst,
  Bool-cases,
}
use cluster_api_control_plan.Objects.{Machine, ControlPlaneObject, Library, RolloutStrategy, holds}
use cluster_api_control_plan.Scale.Down.{deleted}
use cluster_api_control_plan.Scale.Up
use cluster_api_control_plan.Scale.Up.{
  boots, from_boot, scale_up_control_plane, scale_down, upgrade_control_plane, idle,
}
use cluster_api_control_plan.Scale.Up.Once.{scales-booting}
use cluster_api_control_plan.Scale.Up.Surge.{
  Creates, Deletes, HasRoom, scale_up-Deletes, scale_down-Creates, scale_down-Deletes,
  upgrade_control_plane-IsPaced,
}
use cluster_api_control_plan.Boot.{initialize_control_plane}
use cluster_api_control_plan.Rollout.{ControlPlane}
use cluster_api_control_plan.Machines.{
  World, drop_error, resize, note_up_to_date, roll_or_resize, condition, machines_spec_up_to_date,
}

-- What the steps may do with a number of machines, the replicas and the strategy: below the replicas
-- a machine is created, above them one is deleted, and a rollout goes up to its surge.
pub record IsMeasured (n : ℕ) (replicas : ℤ) (strategy : Option RolloutStrategy)
    (effects : List Up.Effect) : Type 0 where
  pub grows : Creates effects → IsBelow n replicas ⊎ HasRoom true replicas strategy n
  pub shrinks :
      (name : String)
      → Deletes name effects
      → (2 ≤ n) × (IsAbove n replicas ⊎ HasRoom false replicas strategy n)

module _ (lib : Library) (w : World) where
  resize-IsMeasured :
      (cp : ControlPlane) (tcp : ControlPlaneObject)
      → IsMeasured (length cp.machines) tcp.replicas tcp.strategy (resize lib w cp tcp).effects
  unfolding resize
  resize-IsMeasured cp tcp = elim (Bool-cases (is_below (length cp.machines) tcp.replicas)) [
    | inl t ↦ elim (Bool-cases (length cp.machines == 0)) [
      | inl z ↦ record {
        grows = λ c. inl (is_below→IsBelow _ tcp.replicas t);
        shrinks = λ name d. absurd (
            scales-booting (deleted name)
              (initialize_control_plane lib w.up.rules w.up.pick_fewest w.up.boot w.up.cluster_name
                cp tcp).effects
              (rw (t, z) at d));
      }
      | inr z ↦ record {
        grows = λ c. inl (is_below→IsBelow _ tcp.replicas t);
        shrinks = λ name d. absurd (scale_up-Deletes lib w.up cp tcp name (rw (t, z) at d));
      }
    ]
    | inr f ↦ elim (Bool-cases (is_above (length cp.machines) tcp.replicas)) [
      | inl t ↦ record {
        grows = λ c. absurd (
            scale_down-Creates lib w.up cp tcp []
              (subst Creates (dropped (scale_down lib w.up cp tcp [])) (rw (f, t) at c)));
        shrinks = λ name d.
            let safe =
              scale_down-Deletes lib w.up cp tcp [] name
                (subst (Deletes name) (dropped (scale_down lib w.up cp tcp [])) (rw (f, t) at d)) in
            (safe.several, inl (is_above→IsAbove _ tcp.replicas t));
      }
      | inr g ↦ rw (f, g) (record { grows = λ (m, n). absurd n; shrinks = λ name n. absurd n })
    ]
  ]
    where
      dropped : (o : Up.Outcome) → (drop_error o).effects ≡ o.effects
      dropped o = elim (Bool-cases (ltb 0 o.requeue_after)) [
        | inl t ↦ rw (t, drop_error) refl
        | inr f ↦ rw (f, drop_error) refl
      ]

  pub roll_or_resize-IsMeasured :
      (rollout outdated : List Machine) (cp : ControlPlane) (tcp : ControlPlaneObject)
      → IsMeasured
          (length cp.machines)
          tcp.replicas
          tcp.strategy
          (roll_or_resize lib w rollout outdated cp tcp).effects
  unfolding roll_or_resize note_up_to_date
  roll_or_resize-IsMeasured [] (m ∷ ms) cp tcp = resize-IsMeasured cp tcp
  roll_or_resize-IsMeasured [] [] cp tcp =
      elim (Bool-cases (has_key machines_spec_up_to_date tcp.conditions)) [
        | inl t ↦ rw t (resize-IsMeasured cp (up_to_date tcp))
        | inr f ↦ rw f (resize-IsMeasured cp tcp)
      ]
    where
      up_to_date : ControlPlaneObject → ControlPlaneObject
      up_to_date = condition machines_spec_up_to_date holds "MachinesSpecUpToDate" (say "")
  roll_or_resize-IsMeasured (m ∷ ms) outdated cp tcp =
      let paced = upgrade_control_plane-IsPaced lib w.up cp _ (m ∷ ms) in
      record {
        grows = λ c. inr (paced.grows c).0;
        shrinks = λ name d. let (room, safe) = paced.shrinks name d in (safe.several, inr room);
      }
