-- ===== src/Controller/Delete/Tests.antt =====
-- The deletion of a control plane with one running machine, and with the finalizer of old.
use cluster_api_control_plan.Base.{◌*◌, none, [], ◌∷◌, ok}
use cluster_api_control_plan.Objects.{ControlPlaneObject, second}
use cluster_api_control_plan.Remediation.Api.{done}
use cluster_api_control_plan.PreTerminate.Hook.{Env}
use cluster_api_control_plan.Controller.Delete.{legacy_finalizer, reconcile_delete}
use cluster_api_control_plan.Controller.Delete.Laws.{IsTeardown, reconcile_delete-IsTeardown}
use cluster_api_control_plan.Samples.{control_plane, cp_a, deleting_b}

abbrev env : Env
env = record {
  helper = λ _. none;
  patch = λ _. none;
  configured_timeout = 0;
  now = 100 * second;
  later = 100 * second;
}

abbrev old_plane : ControlPlaneObject
old_plane = record control_plane { finalizers = legacy_finalizer ∷ [] }

reconcile_delete-IsTeardown_example :
    IsTeardown env
      (λ _. done)
      none
      old_plane
      (ok (cp_a ∷ deleting_b ∷ []))
      (reconcile_delete env (λ _. done) none old_plane (ok (cp_a ∷ deleting_b ∷ [])))
reconcile_delete-IsTeardown_example =
    reconcile_delete-IsTeardown env (λ _. done) none old_plane (ok (cp_a ∷ deleting_b ∷ []))
