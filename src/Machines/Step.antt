-- ===== src/Machines/Step.antt =====
-- controllers/remediation.go, reconcileRemediationAndMachines, with the steps that it calls: the last
-- phase of a reconcile.
use cluster_api_control_plan.Base.{
  ℕ, ◌≤◌, ◌≡◌, Bool, true, false, Option, List, [], ◌∷◌, map, count, length, arith, refl,
}
use cluster_api_control_plan.Objects.{Machine, ControlPlaneObject, Cluster, Library}
use cluster_api_control_plan.Quorum.{Statuses}
use cluster_api_control_plan.Remediation.Api
use cluster_api_control_plan.Remediation.Api.{deleted}
use cluster_api_control_plan.Remediation.Unhealthy.{
  Phase, reconcile_unhealthy_machines, reconcile_remediation_and_machines,
}
use cluster_api_control_plan.Remediation.Unhealthy.Deletions.{deletions}
use cluster_api_control_plan.Remediation.Unhealthy.Phases.{
  reconcile_remediation_and_machines_deletes,
}
use cluster_api_control_plan.Machines
use cluster_api_control_plan.Machines.{World, Outcome, reconcile_machines}
use cluster_api_control_plan.Machines.Single
use cluster_api_control_plan.Machines.Single.{reconcile_machines-once}

pub data Effect : Type 0 where
  remediates : Api.Effect → Effect
  manages : Machines.Effect → Effect

abbrev pub from_machines : Outcome → Phase Effect
from_machines o = record {
  effects = map manages o.effects;
  requeue_after = o.requeue_after;
  error = o.error;
}

-- The statuses that the etcd health check recorded go to both steps.
abbrev pub with_statuses : Statuses → World → World
with_statuses statuses w = record w { up = record w.up { statuses = statuses } }

unfoldable pub reconcile_last_phase :
    Library
    → Api.Api
    → Option Cluster
    → Statuses
    → ℕ
    → (ℕ → ℕ → ℕ)
    → World
    → ControlPlaneObject
    → List Machine
    → Phase Effect
unfolding reconcile_remediation_and_machines
reconcile_last_phase lib api cluster statuses now lowest w tcp machines =
    reconcile_remediation_and_machines remediates lowest
      (λ t ms. from_machines (reconcile_machines lib (with_statuses statuses w) t ms))
      (reconcile_unhealthy_machines lib api cluster statuses now tcp machines)

-- The effect creates or deletes a machine.
abbrev pub is_change : Effect → Bool
is_change (remediates (deleted _)) = true
is_change (remediates _) = false
is_change (manages e) = Single.is_change e

remediates-count :
    (es : List Api.Effect) → count is_change (map remediates es) ≡ length (deletions es)
remediates-count [] = refl
remediates-count (Api.deleted name ∷ es) = omega (arith, remediates-count es)
remediates-count (Api.recorded v ∷ es) = remediates-count es
remediates-count (Api.patched m ∷ es) = remediates-count es
remediates-count (Api.event reason message ∷ es) = remediates-count es

manages-count :
    (es : List Machines.Effect) → count is_change (map manages es) ≡ count Single.is_change es
manages-count [] = refl
manages-count (e ∷ es) = ground (arith, manages-count es)

-- The last phase of a reconcile, remediation with the rollout and the scaling that follow it, creates or
-- deletes one machine at most: whatever remediation deletes is the only change.
pub reconcile_last_phase-once :
    (lib : Library) (api : Api.Api) (cluster : Option Cluster) (statuses : Statuses) (now : ℕ)
    (lowest : ℕ → ℕ → ℕ) (w : World) (tcp : ControlPlaneObject) (machines : List Machine)
    → count is_change
        (reconcile_last_phase lib api cluster statuses now lowest w tcp machines).effects
      ≤ 1
unfolding reconcile_last_phase
reconcile_last_phase-once lib api cluster statuses now lowest w tcp machines =
    reconcile_remediation_and_machines_deletes remediates is_change remediates-count lib api cluster
      statuses now tcp machines lowest
      (λ t ms. from_machines (reconcile_machines lib (with_statuses statuses w) t ms))
      (λ t ms. omega (
        arith,
        manages-count (reconcile_machines lib (with_statuses statuses w) t ms).effects,
        reconcile_machines-once lib (with_statuses statuses w) t ms,
      ))
