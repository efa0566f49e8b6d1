-- ===== src/Remediation/Checks.antt =====
-- controllers/remediation.go: what has to hold for the chosen machine to be remediated.
mod Guards
mod Tests
use cluster_api_control_plan.Base.{
  wrap_error, ℕ, suc, ◌+◌, ◌*◌, Bool, true, false, ◌&&◌, ◌||◌, not, Option, none, some, List, [],
  ◌∷◌, ◌++◌, String, any, find?, length, leb, if◌then◌else◌, deref, str_eq, erase, insert, Message,
  Error, say, about, wrap, counts, aggregate, Result, ok, err, is_some,
}
use cluster_api_control_plan.Objects.{
  RemediationData, Machine, ControlPlaneObject, Cluster, Library, Condition, Status, holds, fails,
  set_condition, condition_holds, condition_fails, is_deleting, has_node, same_name, second, Value,
}
use cluster_api_control_plan.Hooks.{is_updating_in_place}
use cluster_api_control_plan.Quorum.{Statuses, can_safely_remediate_machine}
use cluster_api_control_plan.Remediation.Limits.{
  Reason, Verdict, refuse, go, refuse_if, ◌>>=◌, ◌>>◌, remediation_limits_for, marshal,
  check_remediation_retry_limits,
}
use cluster_api_control_plan.Remediation.Progress.{
  remediation_in_progress, reconcile_remediation_in_progress, patch_remediation_in_progress,
}
use cluster_api_control_plan.Remediation.Target.{machine_to_be_remediated}
use cluster_api_control_plan.Remediation.Api.{
  Answer, Api, Effect, recorded, deleted, patched, event, error_of, error_unless_gone,
}

-- The version that the topology is about to propagate, if remediation has to wait for it.
unfoldable pub topology_upgrade_pending : Option Cluster → ControlPlaneObject → Option Message
topology_upgrade_pending none tcp = none
topology_upgrade_pending (some cluster) tcp = elim cluster.topology_version [
  | none ↦ none
  | some version ↦
      let step = deref cluster.upgrade_step "" in
      if str_eq version tcp.version || (not (str_eq step "") && str_eq step tcp.version)
      then none
      else some (
          about "waiting for a version upgrade to be propagated from Cluster.spec.topology"
            (if str_eq step "" then version else step))
]

-- The first of the others that is known to hold etcd data, or why the others could not be checked.
unfoldable pub etcd_data_holder : Api → Machine → List Machine → Option String × Option Error
etcd_data_holder api target [] = (none, none)
etcd_data_holder api target (m ∷ ms) =
    let (holder, e) = etcd_data_holder api target ms in
    if same_name m target || is_deleting m then (holder, e) else elim (api.has_etcd_data m) [
      | err why ↦
          (holder, if is_some holder then none else aggregate (some (wrap "machine" m.name why)) e)
      | ok true ↦ (some m.name, none)
      | ok false ↦ (holder, e)
    ]

unfoldable pub remediation_before_initialization :
    Api → ControlPlaneObject → Machine → List Machine → Verdict (Unit {0})
unfolding etcd_data_holder
remediation_before_initialization api tcp target machines =
    let (holder, e) = etcd_data_holder api target machines in
    let unknown =
      say "no other control plane machine is known to hold the bootstrapped etcd data" in
    if not tcp.bootstrapped
    then go tt
    else if has_node target
    then refuse Reason.deferred (say "waiting for the control plane to be initialized")
    else if leb (length machines) 1
    then refuse Reason.cannot_be_remediated
        (say "can't remediate if current replicas are less or equal to 1")
    else refuse_if (not (is_some holder)) Reason.cannot_be_remediated
        (elim e [ none ↦ unknown | some why ↦ Message.both unknown why ])

module _ (lib : Library) where
  -- The loop over the other machines of an initialized control plane.
  unfoldable pub check_others : Machine → List Machine → Verdict (Unit {0})
  check_others target [] = go tt
  check_others target (m ∷ ms) =
      let rest = check_others target ms in
      if same_name m target
      then rest
      else if is_deleting m
      then refuse Reason.deferred (about "waiting for the deletion of control plane machine" m.name)
      else if not (lib.is_unhealthy m) && not (has_node m)
      then refuse Reason.deferred
          (about "waiting for the provisioning of control plane machine" m.name)
      else rest

  unfoldable pub check_quorum : Machine → List Machine → Statuses → Verdict (Unit {0})
  unfolding can_safely_remediate_machine
  check_quorum target machines statuses =
      elim (can_safely_remediate_machine statuses target machines) [
        | err e ↦
            refuse Reason.deferred (say "Failed to check etcd cluster health before remediation")
        | ok (safe, details) ↦
            refuse_if (not safe) Reason.cannot_be_remediated
              (Message.both (say "this could result in etcd quorum loss") details)
      ]

  unfoldable pub remediation_when_initialized :
      Machine → List Machine → Statuses → Verdict (Unit {0})
  unfolding check_others check_quorum
  remediation_when_initialized target machines statuses = do
    refuse_if (leb (length machines) 1) Reason.cannot_be_remediated
        (say "can't remediate if current replicas are less or equal to 1")
    check_others target machines
    check_quorum target machines statuses

  unfoldable pub check_updates : Machine → List Machine → Verdict (Unit {0})
  unfolding is_updating_in_place
  check_updates target [] = go tt
  check_updates target (m ∷ ms) =
      let rest = check_updates target ms in
      if not (same_name m target) && is_updating_in_place lib m
      then refuse Reason.deferred
          (about "waiting for the in-place update of control plane machine" m.name)
      else rest

  abbrev pending_verdict : Option Message → Verdict (Unit {0})
  pending_verdict none = go tt
  pending_verdict (some message) = refuse Reason.deferred message

  -- All that reconcileUnhealthyMachines checks of the target before it acts, in order.
  unfoldable pub may_remediate :
      Api
      → Option Cluster
      → ControlPlaneObject
      → Machine
      → List Machine
      → Statuses
      → ℕ
      → Verdict RemediationData
  unfolding remediation_in_progress topology_upgrade_pending check_updates
      remediation_when_initialized remediation_before_initialization
  may_remediate api cluster tcp target machines statuses now = do
    refuse_if (remediation_in_progress tcp) Reason.deferred
        (say "waiting for the previous remediation to complete")
    pending_verdict (topology_upgrade_pending cluster tcp)
    d ← check_remediation_retry_limits target (remediation_limits_for tcp.remediation) now
    check_updates target machines
    if deref tcp.initialized false
        then remediation_when_initialized target machines statuses
        else remediation_before_initialization api tcp target machines
    go d
