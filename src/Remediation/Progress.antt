-- ===== src/Remediation/Progress.antt =====
-- controllers/remediation.go: the annotation that says that a remediation is in progress.
mod Laws
mod Tests
use cluster_api_control_plan.Base.{
  reaches, ℕ, suc, ◌+◌, ◌*◌, Bool, true, false, ◌&&◌, not, Option, none, some, List, [], ◌∷◌,
  String, leb, ltb, if◌then◌else◌, lookup, insert, erase, has_key, is_some, str_eq, Error, Message,
  say,
}
use cluster_api_control_plan.Objects.{
  RemediationData, Value, Machine, ControlPlaneObject, second, is_deleting,
  remediation_in_progress_annotation,
}
use cluster_api_control_plan.Remediation.Limits.{remediation_data_from_annotation}

abbrev pub remediation_start_timeout : ℕ
remediation_start_timeout = 60 * second

unfoldable pub remediation_in_progress : ControlPlaneObject → Bool
remediation_in_progress tcp = has_key remediation_in_progress_annotation tcp.annotations

unfoldable pub drop_in_progress : ControlPlaneObject → ControlPlaneObject
drop_in_progress tcp = record tcp {
  annotations = erase remediation_in_progress_annotation tcp.annotations;
}

-- What the loop over the machines finds: one newer than the remediation, or the remediated machine
-- with the number of machines that are not being deleted.
pub data Survey : Type 0 where
  newer : Survey
  seen : Option Machine → ℕ → Survey

unfoldable pub survey : RemediationData → Option Machine → ℕ → List Machine → Survey
survey d remediated n [] = seen remediated n
survey d remediated n (m ∷ ms) =
    let rest =
      survey d (if str_eq m.name d.machine then some m else remediated)
        (if is_deleting m then n else n + 1) ms in
    if ltb d.timestamp m.created then newer else rest

-- The `switch`: whether the annotation is stale.
unfoldable pub is_stale : ControlPlaneObject → RemediationData → ℕ → Survey → Bool
is_stale tcp d now newer = true
is_stale tcp d now (seen none n) = reaches n tcp.replicas
is_stale tcp d now (seen (some m) n) =
    not (is_deleting m) && ltb (d.timestamp + remediation_start_timeout) now

unfoldable pub reconcile_with_data :
    ControlPlaneObject → List Machine → ℕ → Option RemediationData → ControlPlaneObject
unfolding survey is_stale drop_in_progress
reconcile_with_data tcp machines now none = drop_in_progress tcp
reconcile_with_data tcp machines now (some d) =
    if is_stale tcp d now (survey d none 0 machines) then drop_in_progress tcp else tcp

unfoldable pub reconcile_remediation_in_progress :
    ControlPlaneObject → List Machine → ℕ → ControlPlaneObject
unfolding remediation_data_from_annotation reconcile_with_data
reconcile_remediation_in_progress tcp machines now =
    elim (lookup remediation_in_progress_annotation tcp.annotations) [
      | none ↦ tcp
      | some v ↦ reconcile_with_data tcp machines now (remediation_data_from_annotation v)
    ]

-- The two immediate patches of the annotation. `failure` is what the API answers.
unfoldable pub patch_remediation_in_progress :
    Option Error → Value → ControlPlaneObject → ControlPlaneObject × Option Error
patch_remediation_in_progress none value tcp = (
  record tcp { annotations = insert remediation_in_progress_annotation value tcp.annotations },
  none,
)
patch_remediation_in_progress (some e) value tcp =
    (tcp, some (Message.both (say "failed to patch the remediation-in-progress annotation") e))

unfoldable pub clear_remediation_in_progress :
    Option Error → ControlPlaneObject → ControlPlaneObject × Option Error
unfolding remediation_in_progress drop_in_progress
clear_remediation_in_progress failure tcp =
    if not (remediation_in_progress tcp) then (tcp, none) else elim failure [
      | none ↦ (drop_in_progress tcp, none)
      | some e ↦ (
        tcp,
        some (Message.both (say "failed to remove the remediation-in-progress annotation") e),
      )
    ]
