-- ===== src/InPlace/Trigger.antt =====
-- controllers/inplace_trigger.go: the writes that commit a machine to being updated in place.
pub mod Laws
mod Written
mod Tests
use cluster_api_control_plan.Base.{
  wrap_error, Bool, true, false, Option, none, some, List, [], ◌∷◌, ◌++◌, String, if◌then◌else◌,
  lookup, insert, has_key, deref, Message, Error, wrap,
}
use cluster_api_control_plan.Objects.{Machine, Library, plain}
use cluster_api_control_plan.Hooks.{is_marked, mark_as_pending}
use cluster_api_control_plan.Rollout.{InfraObject, TalosConfig}
use cluster_api_control_plan.InPlace.Patch.{Plan}

-- What the API server answers to the patches.
pub record Client : Type 0 where
  pub patch : Machine → Option Error
  pub apply_infra : InfraObject → Option Error
  pub apply_config : TalosConfig → Option Error
  pub apply_machine : Machine → Option Error
  pub mark : Machine → Option Error

-- The patches, in order. A configuration is applied with the annotation of an update alone.
pub data Effect : Type 0 where
  stamps : Machine → Effect
  applies_infra : InfraObject → Effect
  applies_config : TalosConfig → Effect
  applies_machine : Machine → Effect
  marks_pending : Machine → Effect

-- The machine in memory, the patches, and the error.
pub record Step : Type 0 where
  pub machine : Machine
  pub effects : List Effect
  pub error : Option Error

-- Goes on after a step that had no error.
unfoldable pub and_then : Step → (Machine → Step) → Step
and_then s k = elim s.error [
  | some e ↦ s
  | none ↦ let t = k s.machine in record t { effects = s.effects ++ t.effects }
]

module _ (lib : Library) (client : Client) where
  abbrev pub stamped : Machine → Machine
  stamped m = record m { annotations = insert lib.update_in_progress (plain "") m.annotations }

  unfoldable pub stamp : Machine → Step
  stamp m =
      if has_key lib.update_in_progress m.annotations
      then record { machine = m; effects = []; error = none }
      else record {
        machine = stamped m;
        effects = stamps (stamped m) ∷ [];
        error =
            wrap_error "failed to mark machine for in-place update" m.name
              (client.patch (stamped m));
      }

  -- The annotations that name the template, empty where they are missing, and that of the update.
  unfoldable pub desired_infra : InfraObject → InfraObject
  desired_infra obj = record obj {
    annotations =
        (lib.cloned_from_name, deref (lookup lib.cloned_from_name obj.annotations) "")
        ∷ (lib.cloned_from_group_kind, deref (lookup lib.cloned_from_group_kind obj.annotations) "")
        ∷ (lib.update_in_progress, "")
        ∷ [];
  }

  unfoldable pub write_infra : Option InfraObject → Machine → Step
  unfolding desired_infra
  write_infra none m = record { machine = m; effects = []; error = none }
  write_infra (some obj) m = record {
    machine = m;
    effects = applies_infra (desired_infra obj) ∷ [];
    error =
        wrap_error "failed to write desired InfraMachine" m.name
          (client.apply_infra (desired_infra obj));
  }

  unfoldable pub write_config : TalosConfig → Machine → Step
  write_config config m = record {
    machine = m;
    effects = applies_config config ∷ [];
    error = wrap_error "failed to write desired TalosConfig" m.name (client.apply_config config);
  }

  unfoldable pub write_machine : Machine → Machine → Step
  write_machine desired m = record {
    machine = m;
    effects = applies_machine desired ∷ [];
    error = wrap_error "failed to write desired Machine" m.name (client.apply_machine desired);
  }

  -- hooks.MarkAsPending of the machine, which patches nothing if the annotation stays what it is
  unfoldable pub mark_pending : Machine → Step
  mark_pending m =
      let (annotations, e) =
        mark_as_pending lib (client.mark m) (lib.update_machine ∷ []) m.annotations in
      let marked = record m { annotations = annotations } in
      record {
        machine = marked;
        effects =
            if is_marked lib (lib.update_machine ∷ []) m.annotations
            then []
            else marks_pending marked ∷ [];
        error = wrap_error "failed to start in-place update" m.name e;
      }

  -- What follows each of the writes.
  abbrev pub from_machine : Plan → Machine → Step
  from_machine plan m = and_then (write_machine plan.desired_machine m) mark_pending

  abbrev pub from_config : Plan → Machine → Step
  from_config plan m = and_then (write_config plan.desired_talos_config m) (from_machine plan)

  abbrev pub from_infra : Plan → Machine → Step
  from_infra plan m = and_then (write_infra plan.desired_infra_machine m) (from_config plan)

  unfoldable pub trigger_in_place_update : Plan → Step
  unfolding and_then stamp write_infra write_config write_machine mark_pending
  trigger_in_place_update plan = and_then (stamp plan.machine) (from_infra plan)
