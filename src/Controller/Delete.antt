-- ===== src/Controller/Delete.antt =====
-- controllers/taloscontrolplane_controller.go: the finalizers, and reconcileDelete.
mod Finalizers
mod Teardown
mod Laws
mod Tests
use cluster_api_control_plan.Base.{
  ℕ, ◌*◌, Bool, true, false, ◌||◌, not, Option, none, some, List, [], ◌∷◌, ◌++◌, String, any,
  filter, str_eq, if◌then◌else◌, say, Error, Result, ok, err,
}
use cluster_api_control_plan.Objects.{
  Machine, ControlPlaneObject, second, fails, set_condition, is_deleting,
}
use cluster_api_control_plan.Remediation.Api.{Answer, error_unless_gone}
use cluster_api_control_plan.PreTerminate.Hook
use cluster_api_control_plan.PreTerminate.Hook.{Env, Step, release_pre_terminate_hook}

abbrev pub finalizer : String
finalizer = "talos.controlplane.cluster.x-k8s.io/finalizer"

abbrev pub legacy_finalizer : String
legacy_finalizer = "talos.controlplane.cluster.x-k8s.io"

-- controllerutil.ContainsFinalizer, AddFinalizer and RemoveFinalizer, on the list of finalizers.
abbrev pub contains_finalizer : String → List String → Bool
contains_finalizer f = any (str_eq f)

abbrev pub add_finalizer : String → List String → List String
add_finalizer f fs = if contains_finalizer f fs then fs else fs ++ f ∷ []

abbrev pub remove_finalizer : String → List String → List String
remove_finalizer f = filter (λ x. not (str_eq f x))

-- The object, and whether it changed.
unfoldable pub ensure_finalizers : ControlPlaneObject → ControlPlaneObject × Bool
ensure_finalizers tcp =
    let added = add_finalizer finalizer tcp.finalizers in
    (
      record tcp { finalizers = remove_finalizer legacy_finalizer added },
      not (contains_finalizer finalizer tcp.finalizers)
          || contains_finalizer legacy_finalizer added,
    )

unfoldable pub remove_finalizers : ControlPlaneObject → ControlPlaneObject
remove_finalizers tcp = record tcp {
  finalizers = remove_finalizer legacy_finalizer (remove_finalizer finalizer tcp.finalizers);
}

abbrev pub requeue_duration : ℕ
requeue_duration = 30 * second

-- What is asked of the API server: the patches that release a hook, deletions of machines as they
-- stand in memory, and the update that drops the finalizers.
pub data Effect : Type 0 where
  releases : Hook.Effect → Effect
  deletes : Machine → Effect
  updates : ControlPlaneObject → Effect

pub record Outcome : Type 0 where
  pub tcp : ControlPlaneObject
  pub effects : List Effect
  pub requeue_after : ℕ
  pub error : Option Error

abbrev pub releasing : List Hook.Effect → List Effect
releasing [] = []
releasing (e ∷ es) = releases e ∷ releasing es

-- `delete` answers the deletion of a machine, `update` the update of the object.
module _ (env : Env) (delete : Machine → Answer) (update : Option Error) where
  -- The machine is asked to be deleted unless it is being deleted, and then the rest.
  abbrev pub delete_one : Machine → List Effect × Option Error → List Effect × Option Error
  delete_one m rest = if is_deleting m then rest else elim (error_unless_gone (delete m)) [
    | some e ↦ (deletes m ∷ [], some e)
    | none ↦ (deletes m ∷ rest.0, rest.1)
  ]

  abbrev pub tear_down_one : Step → List Effect × Option Error → List Effect × Option Error
  tear_down_one s rest = elim s.error [
    | some e ↦ (releasing s.effects, some e)
    | none ↦ let (effects, e) = delete_one s.machine rest in (releasing s.effects ++ effects, e)
  ]

  -- The loop over the machines: the hook goes before the machine does.
  unfoldable pub tear_down : List Machine → List Effect × Option Error
  unfolding release_pre_terminate_hook
  tear_down [] = ([], none)
  tear_down (m ∷ ms) = tear_down_one (release_pre_terminate_hook env m) (tear_down ms)

  abbrev pub deleting_condition : ControlPlaneObject → ControlPlaneObject
  deleting_condition tcp = record tcp {
    conditions = set_condition "Resized" fails "Deleting" (say "") tcp.conditions;
  }

  abbrev pub after_tear_down : ControlPlaneObject → List Effect × Option Error → Outcome
  after_tear_down tcp (effects, some e) = record {
    tcp = tcp;
    effects = effects;
    requeue_after = 0;
    error = some e;
  }
  after_tear_down tcp (effects, none) = record {
    tcp = deleting_condition tcp;
    effects = effects;
    requeue_after = requeue_duration;
    error = none;
  }

  -- It starts from what the list call of the machines answers.
  unfoldable pub reconcile_delete : ControlPlaneObject → Result (List Machine) → Outcome
  unfolding remove_finalizers tear_down
  reconcile_delete tcp (err e) = record {
    tcp = tcp;
    effects = [];
    requeue_after = 0;
    error = some e;
  }
  reconcile_delete tcp (ok []) = record {
    tcp = remove_finalizers tcp;
    effects = updates (remove_finalizers tcp) ∷ [];
    requeue_after = 0;
    error = update;
  }
  reconcile_delete tcp (ok (m ∷ ms)) = after_tear_down tcp (tear_down (m ∷ ms))
