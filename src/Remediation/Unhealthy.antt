-- ===== src/Remediation/Unhealthy.antt =====
-- controllers/remediation.go: the handler that remediates an unhealthy control plane machine. What
-- it does to the API server is a list of effects, in order.
pub mod Deletions
mod Effects
pub mod Phases
mod Tests
use cluster_api_control_plan.Base.{
  wrap_error, ℕ, suc, ◌+◌, ◌*◌, Bool, true, false, ◌&&◌, ◌||◌, not, Option, none, some, List, [],
  ◌∷◌, ◌++◌, String, any, find?, length, leb, if◌then◌else◌, deref, str_eq, erase, insert, Message,
  Error, say, about, wrap, counts, aggregate, map, Result, ok, err, is_some,
}
use cluster_api_control_plan.Objects.{
  RemediationData, Machine, ControlPlaneObject, Cluster, Library, Condition, Status, holds, fails,
  set_condition, condition_holds, condition_fails, is_deleting, has_node, same_name, second, Value,
}
use cluster_api_control_plan.Hooks.{is_updating_in_place}
use cluster_api_control_plan.Quorum.{Statuses, can_safely_remediate_machine}
use cluster_api_control_plan.Remediation.Limits.{
  Reason, Verdict, refuse, go, refuse_if, ◌>>=◌, ◌>>◌, remediation_limits_for, marshal,
  check_remediation_retry_limits,
}
use cluster_api_control_plan.Remediation.Progress.{
  remediation_in_progress, reconcile_remediation_in_progress, patch_remediation_in_progress,
}
use cluster_api_control_plan.Remediation.Target.{machine_to_be_remediated}
use cluster_api_control_plan.Remediation.Api.{
  Answer, Api, Effect, recorded, deleted, patched, event, error_of, error_unless_gone,
}
use cluster_api_control_plan.Remediation.Cleanup.{owner_remediated, cleanup_owner_remediated}
use cluster_api_control_plan.Remediation.Checks.{may_remediate}

abbrev pub remediation_requeue_after : ℕ
remediation_requeue_after = 20 * second

-- The reasons as the API package spells them.
abbrev pub reason_text : Reason → String
reason_text Reason.deferred = "RemediationDeferred"
reason_text Reason.cannot_be_remediated = "CannotBeRemediated"
reason_text Reason.machine_deleting = "MachineDeleting"
reason_text Reason.internal_error = "InternalError"

-- What a reconcile of the unhealthy machines leaves.
pub record Outcome : Type 0 where
  pub control_plane : ControlPlaneObject
  pub machines : List Machine
  pub effects : List Effect
  pub requeue_after : ℕ
  pub remediating : Bool
  pub error : Option Error

-- The pointer to the target also stands in the list of machines.
unfoldable pub with_target : Machine → List Machine → List Machine
with_target target [] = []
with_target target (m ∷ ms) = (if same_name m target then target else m) ∷ with_target target ms

abbrev pub set_owner_remediated : Machine → Reason → Message → Machine
set_owner_remediated target reason message = record target {
  conditions = set_condition owner_remediated fails (reason_text reason) message target.conditions;
}

-- Only a reason that needs an operator is recorded as an event.
abbrev events_of : Reason → Message → List Effect
events_of Reason.cannot_be_remediated message = event "CannotRemediateMachine" message ∷ []
events_of _ _ = []

-- How the handler ends for its target, before the deferred patch.
pub record Ending : Type 0 where
  pub control_plane : ControlPlaneObject
  pub target : Machine
  pub effects : List Effect
  pub requeue_after : ℕ
  pub remediating : Bool
  pub error : Option Error

-- What follows the checks: record the remediation, then delete the machine.
unfoldable pub remediate : Api → ControlPlaneObject → Machine → RemediationData → Ending
unfolding patch_remediation_in_progress marshal
remediate api tcp target d =
    let (tcp', unrecorded) =
      patch_remediation_in_progress api.patch_control_plane (marshal d) tcp in
    elim unrecorded [
      | some e ↦ record {
        control_plane = tcp';
        target =
            set_owner_remediated target Reason.internal_error
              (say "Failed to record the remediation, please check controller logs for errors");
        effects = [];
        requeue_after = 0;
        remediating = true;
        error = some e;
      }
      | none ↦ elim (error_unless_gone (api.delete target)) [
        | some e ↦ record {
          control_plane = tcp';
          target =
              set_owner_remediated target Reason.internal_error
                (say "Failed to delete the machine, please check controller logs for errors");
          effects = recorded (marshal d) ∷ [];
          requeue_after = 0;
          remediating = true;
          error = some (
              wrap "failed to delete unhealthy machine" target.name
                (wrap "failed to delete control plane machine" target.name e));
        }
        | none ↦ record {
          control_plane = tcp';
          target = set_owner_remediated target Reason.machine_deleting (say "Machine is deleting");
          effects =
              recorded (marshal d)
              ∷ deleted target.name
              ∷ event "RemediatingMachine" (
                  counts "Deleting unhealthy control plane machine to remediate it (retry of)"
                    d.retry_count (remediation_limits_for tcp.remediation).max_retry 0)
              ∷ [];
          requeue_after = remediation_requeue_after;
          remediating = true;
          error = none;
        }
      ]
    ]

unfoldable pub end_with : Api → ControlPlaneObject → Machine → Verdict RemediationData → Ending
unfolding remediate
end_with api tcp target (refuse reason message) = record {
  control_plane = tcp;
  target = set_owner_remediated target reason message;
  effects = events_of reason message;
  requeue_after = 0;
  remediating = false;
  error = none;
}
end_with api tcp target (go d) = remediate api tcp target d

-- The deferred patch of the target, whatever the ending.
unfoldable pub patch_target : Api → List Machine → List Effect → Ending → Outcome
unfolding with_target
patch_target api machines before e = record {
  control_plane = e.control_plane;
  machines = with_target e.target machines;
  effects = before ++ (e.effects ++ patched e.target ∷ []);
  requeue_after = e.requeue_after;
  remediating = e.remediating;
  error = aggregate e.error (
      wrap_error "failed to patch control plane machine" e.target.name
        (error_unless_gone (api.patch e.target)));
}

abbrev stop : ControlPlaneObject → List Machine → List Effect → Option Error → Outcome
stop tcp machines effects e = record {
  control_plane = tcp;
  machines = machines;
  effects = effects;
  requeue_after = 0;
  remediating = false;
  error = e;
}

module _ (lib : Library) (api : Api) (cluster : Option Cluster) (statuses : Statuses)
    (now : ℕ) where
  -- From the choice of the target on.
  unfoldable pub reconcile_target :
      ControlPlaneObject → List Machine → List Effect → Option Machine → Outcome
  reconcile_target tcp machines before none = stop tcp machines before none
  reconcile_target tcp machines before (some target) =
      if is_deleting target then stop tcp machines before none else elim (api.helper target) [
        | some e ↦ stop tcp machines before (some e)
        | none ↦ patch_target api machines before (
            end_with api tcp target
              (may_remediate lib api cluster tcp target machines statuses now))
      ]

  unfoldable pub reconcile_unhealthy_machines : ControlPlaneObject → List Machine → Outcome
  reconcile_unhealthy_machines tcp machines =
      let tcp' = reconcile_remediation_in_progress tcp machines now in
      let (machines', did, e) = cleanup_owner_remediated api machines in
      if is_some e
      then stop tcp' machines' did e
      else reconcile_target tcp' machines' did
          (machine_to_be_remediated lib tcp' machines' statuses)

-- What a step of a reconcile does, and what it returns.
pub record Phase (E : Type 0) : Type 0 where
  pub effects : List E
  pub requeue_after : ℕ
  pub error : Option Error

-- reconcileRemediationAndMachines. `lowest` is util.LowestNonZeroResult of Cluster API,
-- `reconcile_machines` the step that rolls out and scales, and `lift` makes the handler's effects ones
-- of the reconcile.
module _ {E : Type 0} (lift : Effect → E) (lowest : ℕ → ℕ → ℕ) where
  unfoldable pub reconcile_remediation_and_machines :
      (ControlPlaneObject → List Machine → Phase E) → Outcome → Phase E
  reconcile_remediation_and_machines reconcile_machines o =
      let next = reconcile_machines o.control_plane o.machines in
      if o.remediating
      then record { effects = map lift o.effects; requeue_after = o.requeue_after; error = o.error }
      else record {
        effects = map lift o.effects ++ next.effects;
        requeue_after = lowest o.requeue_after next.requeue_after;
        error = aggregate o.error next.error;
      }
