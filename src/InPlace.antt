-- ===== src/InPlace.antt =====
-- controllers/inplace.go: which of the outdated machines is offered to the in-place update
-- extension, and which are rolled out.
pub mod Patch
pub mod Trigger
mod Laws
mod Tests
use cluster_api_control_plan.Base.{
  ℕ, Bool, true, false, ◌&&◌, not, Option, none, some, List, [], ◌∷◌, String, find?, filter,
  if◌then◌else◌, str_eq, lookup, Message, Error, Result, ok, err, about, sort_by,
}
use cluster_api_control_plan.Objects.{
  Machine, ControlPlaneObject, Library, is_deleting, has_node, same_name,
}
use cluster_api_control_plan.Hooks.{is_updating_in_place}
use cluster_api_control_plan.Talos.{Dial}
use cluster_api_control_plan.Etcd.Health.{health_checkable}
use cluster_api_control_plan.Etcd.Check.{etcd_healthcheck}
use cluster_api_control_plan.Preflight.Nodes.{NodeCalls, nodes_healthcheck}
use cluster_api_control_plan.Scale.{by_creation}
use cluster_api_control_plan.Rollout.{ControlPlane, TalosConfig, matches_template_cloned_from}
use cluster_api_control_plan.InPlace.Patch.{Plan, Json, Extensions, can_update_machine}
use cluster_api_control_plan.InPlace.Trigger.{Client, Effect, Step, trigger_in_place_update}

-- inPlaceDecision: the machines that are updated in place, and those to replace.
pub record Decision : Type 0 where
  pub claimed : List Machine
  pub rollout : List Machine

-- The decision, the machine in memory that a trigger changes, the patches, and the error.
pub record Outcome : Type 0 where
  pub decision : Decision
  pub changed : Option Machine
  pub effects : List Effect
  pub error : Option Error

-- What the decision meets. `enabled` says that the feature gate is on and that there is a client.
pub record World : Type 0 where
  pub enabled : Bool
  pub dial : Dial
  pub components : List String
  pub nodes : Machine → Result NodeCalls
  pub json : Json
  pub extensions : Extensions
  pub client : Client

abbrev pub decide : List Machine → List Machine → Outcome
decide claimed rollout = record {
  decision = record { claimed = claimed; rollout = rollout };
  changed = none;
  effects = [];
  error = none;
}

abbrev pub give_up : Error → Outcome
give_up e = record (decide [] []) { error = some e }

module _ (lib : Library) (w : World) (tcp : ControlPlaneObject) (cp : ControlPlane) where
  abbrev pub is_in_place_candidate : Machine → Bool
  is_in_place_candidate m =
      not (is_deleting m) && matches_template_cloned_from lib tcp cp.infra_objects m && has_node m

  unfoldable pub next_in_place_candidate : List Machine → Option Machine
  next_in_place_candidate outdated = find? is_in_place_candidate (sort_by by_creation outdated)

  unfoldable pub build_in_place_plan : Machine → Result Plan
  build_in_place_plan m = elim (lookup m.name cp.talos_configs) [
    | none ↦ err (about "cannot plan in-place update: TalosConfig not found" m.name)
    | some current ↦ ok (record {
      machine = m;
      desired_machine = record m { version = tcp.version };
      desired_infra_machine = lookup m.name cp.infra_objects;
      desired_talos_config = record current { spec = tcp.config };
    })
  ]

  abbrev pub after_trigger : Step → Outcome
  after_trigger s = record {
    decision = record {
      claimed = elim s.error [ some _ ↦ [] | none ↦ s.machine ∷ [] ];
      rollout = [];
    };
    changed = some s.machine;
    effects = s.effects;
    error = s.error;
  }

  abbrev pub offer_plan : Machine → Plan → Result Bool → Outcome
  offer_plan candidate plan (err e) = give_up e
  offer_plan candidate plan (ok false) = decide [] (candidate ∷ [])
  offer_plan candidate plan (ok true) = after_trigger (trigger_in_place_update lib w.client plan)

  -- offerInPlace
  unfoldable pub offer_in_place : Machine → Outcome
  unfolding build_in_place_plan
  offer_in_place candidate = elim (build_in_place_plan candidate) [
    | err e ↦ give_up e
    | ok plan ↦ offer_plan candidate plan (can_update_machine w.json w.extensions plan cp)
  ]

  abbrev pub others_of : Machine → List Machine
  others_of candidate = filter (λ m. not (same_name m candidate)) cp.machines

  -- An unhealthy etcd, or unhealthy components of another machine, defer the decision.
  unfoldable pub offer_when_healthy : Machine → Outcome
  unfolding offer_in_place
  offer_when_healthy candidate = elim ((etcd_healthcheck w.dial cp.machines).1) [
    | some _ ↦ decide [] []
    | none ↦
        elim (nodes_healthcheck w.components w.nodes (health_checkable (others_of candidate))) [
          | some _ ↦ decide [] []
          | none ↦ offer_in_place candidate
        ]
  ]

  abbrev pub offer_next : List Machine → Option Machine → Outcome
  offer_next outdated none = decide [] outdated
  offer_next outdated (some candidate) = offer_when_healthy candidate

  -- Given the machines that are being updated.
  abbrev pub among : List Machine → List Machine → Outcome
  among outdated (m ∷ ms) = decide (m ∷ ms) []
  among outdated [] = offer_next outdated (next_in_place_candidate outdated)

  abbrev pub when_enabled : Bool → List Machine → Outcome
  when_enabled false outdated = decide [] outdated
  when_enabled true outdated = among outdated (filter (is_updating_in_place lib) outdated)

  unfoldable pub reconcile_in_place_updates : List Machine → Outcome
  unfolding offer_when_healthy
  reconcile_in_place_updates outdated = when_enabled w.enabled outdated
