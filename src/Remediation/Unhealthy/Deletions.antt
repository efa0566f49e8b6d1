-- ===== src/Remediation/Unhealthy/Deletions.antt =====
-- The deletions among the effects of the handler's steps.
use cluster_api_control_plan.Base.{
  ◌≡◌, ◌⊎◌, inl, inr, true, some, List, [], ◌∷◌, ◌++◌, String, lookup, lookup-insert, arith, refl,
  ap, ◌∙◌, Option-cases, counts,
}
use cluster_api_control_plan.Objects.{
  RemediationData, Machine, ControlPlaneObject, remediation_in_progress_annotation,
}
use cluster_api_control_plan.Remediation.Limits.{
  Reason, Verdict, refuse, go, marshal, remediation_limits_for,
}
use cluster_api_control_plan.Remediation.Progress.{patch_remediation_in_progress}
use cluster_api_control_plan.Remediation.Api.{
  Api, Effect, recorded, deleted, patched, event, error_unless_gone,
}
use cluster_api_control_plan.Remediation.Cleanup.{cleanup_machine, cleanup_owner_remediated}
use cluster_api_control_plan.Remediation.Unhealthy.{Ending, remediate, end_with, patch_target}
use mathlib.Core.List.{append-nil}

-- The machines that were deleted, in order.
abbrev pub deletions : List Effect → List String
deletions [] = []
deletions (deleted name ∷ es) = name ∷ deletions es
deletions (recorded v ∷ es) = deletions es
deletions (patched m ∷ es) = deletions es
deletions (event reason message ∷ es) = deletions es

pub deletions-append : (xs ys : List Effect) → deletions (xs ++ ys) ≡ deletions xs ++ deletions ys
deletions-append [] ys = refl
deletions-append (deleted name ∷ xs) ys = ap (◌∷◌ name) (deletions-append xs ys)
deletions-append (recorded v ∷ xs) ys = deletions-append xs ys
deletions-append (patched m ∷ xs) ys = deletions-append xs ys
deletions-append (event reason message ∷ xs) ys = deletions-append xs ys

pub cleanup_machine-deletions : (api : Api) (m : Machine) → deletions (cleanup_machine api m).1 ≡ []
unfolding cleanup_machine
cleanup_machine-deletions api m = ground arith

pub cleanup-deletions :
    (api : Api) (ms : List Machine) → deletions (cleanup_owner_remediated api ms).1 ≡ []
unfolding cleanup_owner_remediated
cleanup-deletions api [] = refl
cleanup-deletions api (m ∷ ms) = ground (
  arith,
  deletions-append (cleanup_machine api m).1 (cleanup_owner_remediated api ms).1,
  cleanup_machine-deletions api m,
  cleanup-deletions api ms,
)

-- An ending that deleted the target, with the remediation recorded first.
pub record HasDeleted (target : Machine) (d : RemediationData) (e : Ending) : Type 0 where
  pub after : List Effect
  pub shape : e.effects ≡ recorded (marshal d) ∷ deleted target.name ∷ after
  pub no_more : deletions after ≡ []
  pub in_progress :
      lookup remediation_in_progress_annotation e.control_plane.annotations ≡ some (marshal d)
  pub acted : e.remediating ≡ true

pub remediate_cases :
    (api : Api) (tcp : ControlPlaneObject) (target : Machine) (d : RemediationData)
    → (deletions (remediate api tcp target d).effects ≡ [])
      ⊎ HasDeleted target d (remediate api tcp target d)
unfolding remediate patch_remediation_in_progress
remediate_cases api tcp target d = elim (Option-cases api.patch_control_plane) [
  | inr (e, failed) ↦ inl (ground arith)
  | inl accepted ↦ elim (Option-cases (error_unless_gone (api.delete target))) [
    | inr (e, failed) ↦ inl (ground arith)
    | inl gone ↦ inr (record {
      after = message d ∷ [];
      shape = ground arith;
      no_more = refl;
      in_progress = ground (
        arith,
        lookup-insert remediation_in_progress_annotation remediation_in_progress_annotation
            (marshal d) tcp.annotations,
      );
      acted = ground arith;
    })
  ]
]
  where
    message : RemediationData → Effect
    message d = event "RemediatingMachine" (
        counts "Deleting unhealthy control plane machine to remediate it (retry of)" d.retry_count
          (remediation_limits_for tcp.remediation).max_retry 0)

pub end_with_cases :
    (api : Api) (tcp : ControlPlaneObject) (target : Machine) (v : Verdict RemediationData)
    → (deletions (end_with api tcp target v).effects ≡ [])
      ⊎ ((d : RemediationData) × (v ≡ go d) × HasDeleted target d (end_with api tcp target v))
unfolding end_with
end_with_cases api tcp target (refuse Reason.cannot_be_remediated message) = inl refl
end_with_cases api tcp target (refuse Reason.deferred message) = inl refl
end_with_cases api tcp target (refuse Reason.machine_deleting message) = inl refl
end_with_cases api tcp target (refuse Reason.internal_error message) = inl refl
end_with_cases api tcp target (go d) = elim (remediate_cases api tcp target d) [
  | inl nothing ↦ inl nothing
  | inr did ↦ inr (d, refl, did)
]

pub patch_target-deletions :
    (api : Api) (machines : List Machine) (before : List Effect) (e : Ending)
    → deletions before ≡ []
    → deletions (patch_target api machines before e).effects ≡ deletions e.effects
unfolding patch_target
patch_target-deletions api machines before e h =
    deletions-append before (e.effects ++ patched e.target ∷ [])
    ∙ (ap (λ xs. xs ++ deletions (e.effects ++ patched e.target ∷ [])) h
        ∙ (deletions-append e.effects (patched e.target ∷ []) ∙ append-nil (deletions e.effects)))
