-- ===== src/Remediation/Progress/Tests.antt =====
-- A control plane whose annotation says that a remediation is in progress.
use cluster_api_control_plan.Base.{
  ℕ, ◌≡◌, ◌↔◌, Bool, true, false, Option, none, some, List, [], ◌∷◌, refl,
}
use cluster_api_control_plan.Objects.{
  RemediationData, Value, remediation, Machine, ControlPlaneObject,
  remediation_in_progress_annotation,
}
use cluster_api_control_plan.Remediation.Progress.{
  remediation_in_progress, reconcile_remediation_in_progress,
}
use cluster_api_control_plan.Remediation.Progress.Laws.{
  IsUnderWay, reconcile_remediation_in_progress_iff,
}
use cluster_api_control_plan.Samples.{cp_a, deleting_b, cp_c, control_plane}

abbrev remediating : ControlPlaneObject
remediating = record control_plane {
  annotations =
      (
        remediation_in_progress_annotation,
        remediation (record { machine = "cp-b"; timestamp = 40; retry_count = 0 }),
      )
      ∷ [];
}

abbrev machines : List Machine
machines = cp_a ∷ deleting_b ∷ cp_c ∷ []

still_in_progress :
    remediation_in_progress (reconcile_remediation_in_progress remediating machines 90) ≡ true
unfolding remediation_in_progress cluster_api_control_plan.Base.lookup
    reconcile_remediation_in_progress
still_in_progress = refl

reconcile_remediation_in_progress_iff_example :
    (remediation_in_progress (reconcile_remediation_in_progress remediating machines 90) ≡ true)
    ↔ ((v : Value) × (d : RemediationData) × IsUnderWay remediating machines 90 v d)
reconcile_remediation_in_progress_iff_example =
    reconcile_remediation_in_progress_iff remediating machines 90
