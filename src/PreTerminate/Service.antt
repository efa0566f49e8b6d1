-- ===== src/PreTerminate/Service.antt =====
-- controllers/preterminate.go: which deleting machine is serviced, and the pass over all machines.
mod Laws
mod Tests
use cluster_api_control_plan.Base.{
  ℕ, Bool, true, false, ◌&&◌, ◌||◌, not, Option, none, some, List, [], ◌∷◌, ◌++◌, String, filter,
  find?, head?, length, ltb, ◌==◌, if◌then◌else◌, Error, aggregate, Cmp, then_by, sort_by,
  compare_string, compare, deref,
}
use cluster_api_control_plan.Objects.{Machine, ControlPlaneObject, Cluster, Library, is_deleting}
use cluster_api_control_plan.Talos.{Dial}
use cluster_api_control_plan.PreTerminate.Hook.{
  Effect, Env, is_hooked, stamp_pre_terminate_hooks, pre_terminate_requeue_after, Return,
}
use cluster_api_control_plan.PreTerminate.Membership.{reconcile_hook_for_machine}

unfoldable pub by_name : Cmp Machine
by_name a b = compare_string a.name b.name

unfoldable pub owned_control_plane_machines :
    Library → ControlPlaneObject → List Machine → List Machine
unfolding by_name
owned_control_plane_machines lib tcp machines =
    sort_by by_name (filter (λ m. lib.is_controlled_by m tcp) machines)

-- The oldest deletion first, then by name. It only compares machines that are being deleted.
unfoldable pub by_deletion : Cmp Machine
by_deletion a b =
    then_by (compare (deref a.deletion 0) (deref b.deletion 0)) (compare_string a.name b.name)

-- deletingMachines: the machines with the hook, and the first one without it.
unfoldable pub deleting_machines : List Machine → List Machine × Option Machine
unfolding by_deletion
deleting_machines owned = (
  sort_by by_deletion (filter (λ m. is_deleting m && is_hooked m) owned),
  find? (λ m. is_deleting m && not (is_hooked m)) owned,
)

-- What a pass returns.
pub record Pass : Type 0 where
  pub effects : List Effect
  pub serviced : Option Machine
  pub requeue_after : ℕ
  pub error : Option Error

-- What the pass makes of what the handler of the oldest machine returns.
unfoldable pub after_service : List Machine → Machine → Return → Pass
after_service younger m r = elim r.error [
  | some e ↦ record {
    effects = r.effects;
    serviced = some m;
    requeue_after = r.requeue_after;
    error = some e;
  }
  | none ↦ record {
    effects = r.effects;
    serviced = some m;
    requeue_after =
        if ltb 0 (length younger) && (r.requeue_after == 0)
        then pre_terminate_requeue_after
        else r.requeue_after;
    error = none;
  }
]

module _ (env : Env) (dial : Dial) (cluster : Cluster) (tcp : ControlPlaneObject) where
  unfoldable pub service_first : List Machine → List Machine → Pass
  unfolding after_service
  service_first owned [] = record { effects = []; serviced = none; requeue_after = 0; error = none }
  service_first owned (m ∷ younger) =
      after_service younger m (reconcile_hook_for_machine env dial cluster tcp owned m)

  -- Nothing is serviced while a machine without the hook is being deleted.
  unfoldable pub service_unless_unhooked : List Machine → List Machine → Option Machine → Pass
  unfolding service_first
  service_unless_unhooked owned hooked (some _) = record {
    effects = [];
    serviced = none;
    requeue_after = pre_terminate_requeue_after;
    error = none;
  }
  service_unless_unhooked owned hooked none = service_first owned hooked

  -- servicePreTerminateHooks
  unfoldable pub service_pre_terminate_hooks : List Machine → Pass
  unfolding service_unless_unhooked deleting_machines
  service_pre_terminate_hooks owned =
      let (hooked, unhooked) = deleting_machines owned in
      service_unless_unhooked owned hooked unhooked

  -- reconcileMachinePreTerminateHooks: the servicing sees the machines as the stamping leaves them.
  unfoldable pub reconcile_machine_pre_terminate_hooks : Library → List Machine → Pass
  unfolding service_pre_terminate_hooks owned_control_plane_machines
  reconcile_machine_pre_terminate_hooks lib machines =
      let (owned, stamps, stamp_error) =
        stamp_pre_terminate_hooks env (owned_control_plane_machines lib tcp machines) in
      let pass = service_pre_terminate_hooks owned in
      record pass { effects = stamps ++ pass.effects; error = aggregate stamp_error pass.error }
