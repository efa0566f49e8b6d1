-- ===== src/Remediation/Unhealthy/Phases.antt =====
-- Remediation and the scaling that follows it.
use cluster_api_control_plan.Base.{
  ℕ, ◌≤◌, ◌≡◌, inl, inr, Bool, Option, List, length, map, count, count-append, arith, Bool-cases,
}
use cluster_api_control_plan.Objects.{Machine, ControlPlaneObject, Cluster, Library}
use cluster_api_control_plan.Quorum.{Statuses}
use cluster_api_control_plan.Remediation.Api.{Api, Effect}
use cluster_api_control_plan.Remediation.Unhealthy.{
  Phase, reconcile_unhealthy_machines, reconcile_remediation_and_machines,
}
use cluster_api_control_plan.Remediation.Unhealthy.Deletions.{deletions}
use cluster_api_control_plan.Remediation.Unhealthy.Effects.{reconcile_unhealthy_machines_cases}

-- Remediation and scaling together do at most one of what is counted, if that are the deletions of the
-- remediation, and scaling by itself does at most one.
pub reconcile_remediation_and_machines_deletes :
    {E : Type 0} (lift : Effect → E) (counted : E → Bool)
    → ((es : List Effect) → count counted (map lift es) ≡ length (deletions es))
    → (lib : Library) (api : Api) (cluster : Option Cluster) (statuses : Statuses) (now : ℕ)
      (tcp : ControlPlaneObject) (machines : List Machine) (lowest : ℕ → ℕ → ℕ)
      (reconcile_machines : ControlPlaneObject → List Machine → Phase E)
    → ((t : ControlPlaneObject) (ms : List Machine)
        → count counted (reconcile_machines t ms).effects ≤ 1)
    → count counted
        (reconcile_remediation_and_machines lift lowest reconcile_machines
          (reconcile_unhealthy_machines lib api cluster statuses now tcp machines)).effects
      ≤ 1
unfolding reconcile_remediation_and_machines
reconcile_remediation_and_machines_deletes lift counted same lib api cluster statuses now tcp
      machines lowest rm one =
    let o = reconcile_unhealthy_machines lib api cluster statuses now tcp machines in
    let next = rm o.control_plane o.machines in
    let sum = count-append counted (map lift o.effects) next.effects in
    elim (reconcile_unhealthy_machines_cases lib api cluster statuses now tcp machines) [
      | inr (target, d, did) ↦ ground (arith, did.acted, did.only, same o.effects)
      | inl nothing ↦ elim (Bool-cases o.remediating) [
        | inl acted ↦ ground (arith, same o.effects)
        | inr idle ↦ ground (arith, sum, same o.effects, one o.control_plane o.machines)
      ]
    ]
