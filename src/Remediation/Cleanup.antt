-- ===== src/Remediation/Cleanup.antt =====
-- controllers/remediation.go: the condition of machines that are healthy again.
use cluster_api_control_plan.Base.{
  Bool, ◌&&◌, not, Option, none, some, List, [], ◌∷◌, ◌++◌, String, if◌then◌else◌, erase, Error,
  aggregate,
}
use cluster_api_control_plan.Objects.{Machine, condition_holds, condition_fails, is_deleting}
use cluster_api_control_plan.Remediation.Api.{Api, Effect, patched, error_of}

abbrev pub health_check_succeeded : String
health_check_succeeded = "HealthCheckSucceeded"

abbrev pub owner_remediated : String
owner_remediated = "OwnerRemediated"

unfoldable pub needs_cleanup : Machine → Bool
needs_cleanup m =
    not (is_deleting m)
    && (condition_holds health_check_succeeded m.conditions
        && condition_fails owner_remediated m.conditions)

unfoldable pub without_owner_remediated : Machine → Machine
without_owner_remediated m = record m { conditions = erase owner_remediated m.conditions }

-- One turn of the loop of cleanupOwnerRemediated: the machine, what was patched, and the error.
unfoldable pub cleanup_machine : Api → Machine → Machine × List Effect × Option Error
unfolding needs_cleanup without_owner_remediated
cleanup_machine api m = if not (needs_cleanup m) then (m, [], none) else elim (api.helper m) [
  | some e ↦ (m, [], some e)
  | none ↦ (
    without_owner_remediated m,
    patched (without_owner_remediated m) ∷ [],
    error_of (api.patch (without_owner_remediated m)),
  )
]

unfoldable pub cleanup_owner_remediated :
    Api → List Machine → List Machine × List Effect × Option Error
unfolding cleanup_machine
cleanup_owner_remediated api [] = ([], [], none)
cleanup_owner_remediated api (m ∷ ms) =
    let (m', did, e) = cleanup_machine api m in
    let (ms', did', e') = cleanup_owner_remediated api ms in (m' ∷ ms', did ++ did', aggregate e e')
