-- ===== src/Machines.antt =====
-- controllers/taloscontrolplane_controller.go: reconcileMachines, which bootstraps, updates, rolls
-- out and scales the machines.
pub mod Template
pub mod Single
pub mod Step
pub mod Measured
pub mod Bounds
mod Tests
use cluster_api_control_plan.Base.{
  is_below, is_above, ℕ, ◌-◌, Bool, true, false, not, Option, none, some, List, [], ◌∷◌, ◌++◌,
  String, length, ltb, leb, ◌==◌, if◌then◌else◌, has_key, Message, Error, Result, ok, err, say,
  counts, is_some,
}
use cluster_api_control_plan.Objects.{
  Machine, ControlPlaneObject, Library, ObjectRef, Status, holds, fails, set_condition, same_name,
}
use cluster_api_control_plan.Bootstrap
use cluster_api_control_plan.Bootstrap.{Nodes, reconcile_bootstrap}
use cluster_api_control_plan.Scale.{FailureDomain}
use cluster_api_control_plan.Scale.Up
use cluster_api_control_plan.Scale.Up.{
  from_boot, scale_up_control_plane, scale_down, upgrade_control_plane,
}
use cluster_api_control_plan.Rollout.{
  ControlPlane, InfraObject, TalosConfig, Fetched, new_control_plane, machines_needing_rollout,
}
use cluster_api_control_plan.Boot.{initialize_control_plane, machines_created}
use cluster_api_control_plan.InPlace
use cluster_api_control_plan.InPlace.{reconcile_in_place_updates}
use cluster_api_control_plan.InPlace.Trigger
use cluster_api_control_plan.Machines.Template.{Patcher, Synced, reconcile_machine_template_state}

-- What the reconcile does, in order, step by step.
pub data Effect : Type 0 where
  patches : Machine → Effect
  bootstraps : Bootstrap.Effect → Effect
  updates : Trigger.Effect → Effect
  scales : Up.Effect → Effect

pub record Outcome : Type 0 where
  pub tcp : ControlPlaneObject
  pub effects : List Effect
  pub requeue_after : ℕ
  pub error : Option Error

pub record World : Type 0 where
  pub read_infra : ObjectRef → Fetched InfraObject
  pub read_talos : String → Fetched TalosConfig
  pub domains : List FailureDomain
  pub patcher : Patcher
  pub bootstrap : Nodes
  pub in_place : InPlace.World
  pub up : Up.World

abbrev pub machines_spec_up_to_date : String
machines_spec_up_to_date = "MachinesSpecUpToDate"

abbrev pub tagged : {A : Type 0} → (A → Effect) → List A → List Effect
tagged f [] = []
tagged f (x ∷ xs) = f x ∷ tagged f xs

abbrev pub condition : String → Status → String → Message → ControlPlaneObject → ControlPlaneObject
condition kind status reason message tcp = record tcp {
  conditions = set_condition kind status reason message tcp.conditions;
}

abbrev pub stop : ControlPlaneObject → List Effect → Error → Outcome
stop tcp effects e = record { tcp = tcp; effects = effects; requeue_after = 0; error = some e }

abbrev pub from_up : List Effect → Up.Outcome → Outcome
from_up before o = record {
  tcp = o.tcp;
  effects = before ++ tagged scales o.effects;
  requeue_after = o.requeue_after;
  error = o.error;
}

-- An error of a scale-down that asks to be looked at again is only logged.
unfoldable pub drop_error : Up.Outcome → Up.Outcome
drop_error o = if ltb 0 o.requeue_after then record o { error = none } else o

-- The machines as they stand in memory after a trigger changed one of them.
abbrev pub with_changed : Option Machine → List Machine → List Machine
with_changed none ms = ms
with_changed (some m) [] = []
with_changed (some m) (x ∷ xs) = (if same_name x m then m else x) ∷ with_changed (some m) xs

-- The conditions of a control plane that has its replicas.
unfoldable pub settle : ControlPlaneObject → ControlPlaneObject
settle tcp =
    let resized =
      if has_key "MachinesAllReady" tcp.conditions
      then condition "Resized" holds "Resized" (say "") tcp
      else tcp in
    condition machines_created holds "MachinesCreated" (say "") resized

module _ (lib : Library) (w : World) where
  -- The `switch` on the number of machines.
  unfoldable pub resize : ControlPlane → ControlPlaneObject → Up.Outcome
  unfolding settle drop_error
  resize cp tcp =
      let n = length cp.machines in
      if is_below n tcp.replicas
      then (if n == 0
          then from_boot (
              initialize_control_plane lib w.up.rules w.up.pick_fewest w.up.boot w.up.cluster_name
                cp tcp)
          else scale_up_control_plane lib w.up cp tcp)
      else if is_above n tcp.replicas
      then drop_error (scale_down lib w.up cp tcp [])
      else Up.idle (settle tcp) none

  -- The condition about the machines that are updated in place.
  unfoldable pub note_claimed :
      List Machine → List Machine → ControlPlane → ControlPlaneObject → ControlPlaneObject
  note_claimed [] outdated cp tcp = tcp
  note_claimed (m ∷ ms) outdated cp tcp =
      condition machines_spec_up_to_date fails "InPlaceUpdateInProgress"
        (counts "Updating replicas with outdated spec in place (replicas up to date)"
          (length outdated) (length cp.machines - length outdated) 0)
        tcp

  unfoldable pub note_up_to_date : List Machine → ControlPlaneObject → ControlPlaneObject
  note_up_to_date (m ∷ ms) tcp = tcp
  note_up_to_date [] tcp =
      if has_key machines_spec_up_to_date tcp.conditions
      then condition machines_spec_up_to_date holds "MachinesSpecUpToDate" (say "") tcp
      else tcp

  -- Rolls out the machines that the decision names, or resizes.
  unfoldable pub roll_or_resize :
      List Machine → List Machine → ControlPlane → ControlPlaneObject → Up.Outcome
  unfolding note_up_to_date resize
  roll_or_resize [] outdated cp tcp = resize cp (note_up_to_date outdated tcp)
  roll_or_resize (m ∷ ms) outdated cp tcp =
      upgrade_control_plane lib w.up cp
        (condition machines_spec_up_to_date fails "RollingUpdateInProgress"
          (counts "Rolling replicas with outdated spec (replicas up to date)" (length (m ∷ ms))
            (length cp.machines - length outdated) 0)
          tcp)
        (m ∷ ms)

  unfoldable pub after_in_place :
      List Effect → List Machine → ControlPlane → ControlPlaneObject → InPlace.Outcome → Outcome
  unfolding note_claimed roll_or_resize
  after_in_place before outdated cp tcp d =
      let effects = before ++ tagged updates d.effects in
      elim d.error [
        | some e ↦ stop tcp effects e
        | none ↦ from_up effects (
            roll_or_resize d.decision.rollout outdated
              (record cp { machines = with_changed d.changed cp.machines })
              (note_claimed d.decision.claimed outdated cp tcp))
      ]

  unfoldable pub after_bootstrap : List Effect → ControlPlane → Bootstrap.Outcome → Outcome
  unfolding after_in_place
  after_bootstrap before cp b =
      let effects = before ++ tagged bootstraps b.effects in
      let outdated = machines_needing_rollout lib b.tcp cp in
      if ltb 0 b.requeue_after
      then record { tcp = b.tcp; effects = effects; requeue_after = b.requeue_after; error = none }
      else after_in_place effects outdated cp b.tcp
          (reconcile_in_place_updates lib w.in_place b.tcp cp outdated)

  -- The bootstrap is looked at where there is a machine.
  unfoldable pub bootstrap_step : List Machine → ControlPlaneObject → Bootstrap.Outcome
  bootstrap_step [] tcp = record { tcp = tcp; effects = []; requeue_after = 0 }
  bootstrap_step (m ∷ ms) tcp = reconcile_bootstrap w.bootstrap (m ∷ ms) tcp

  abbrev pub after_sync : ControlPlane → ControlPlaneObject → Synced → Outcome
  after_sync cp tcp s = elim s.error [
    | some e ↦ stop tcp (tagged patches s.patched) e
    | none ↦
        after_bootstrap (tagged patches s.patched) (record cp { machines = s.machines })
          (bootstrap_step s.machines tcp)
  ]

  unfoldable pub reconcile_machines : ControlPlaneObject → List Machine → Outcome
  unfolding after_bootstrap bootstrap_step
  reconcile_machines tcp machines =
      elim (new_control_plane w.read_infra w.read_talos w.domains machines) [
        | err e ↦ stop tcp [] e
        | ok cp ↦ after_sync cp tcp (
            reconcile_machine_template_state lib w.up.rules w.patcher w.up.cluster_name tcp
              machines)
      ]
