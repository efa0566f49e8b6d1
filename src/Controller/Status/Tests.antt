-- ===== src/Controller/Status/Tests.antt =====
-- The status of a control plane of two machines, one of which is being deleted.
use cluster_api_control_plan.Base.{
  ◌≡◌, none, some, List, [], ◌∷◌, ◌*◌, length, ok, say, lookup, refl,
}
use cluster_api_control_plan.Objects.{
  Machine, RemediationData, Value, second, holds, remediation_for_annotation,
}
use cluster_api_control_plan.Rollout.{missing}
use cluster_api_control_plan.Controller.Status.{
  World, alive, is_initialized, last_remediation, set_last_remediation, update_status,
}
use cluster_api_control_plan.Controller.Status.Laws.{IsCounted, update_status-IsCounted}
use cluster_api_control_plan.Controller.Status.Initialized.{IsHonest, update_status-IsHonest}
use cluster_api_control_plan.Controller.Status.Remediation.{IsTold, set_last_remediation-IsTold}
use cluster_api_control_plan.Samples.{library, new_control_plane, cp_a, cp_c, deleting_b}

abbrev ready_c : Machine
ready_c = record cp_c {
  conditions = ("Ready", record { status = holds; reason = ""; message = say "" }) ∷ [];
}

abbrev machines : List Machine
machines = ready_c ∷ deleting_b ∷ []

abbrev world : World
world = record {
  selector = "";
  machines = ok machines;
  lowest_version = λ _. "v1.30.0";
  aggregate = λ _. ok (say "");
  read_infra = λ _. missing;
  read_talos = λ _. missing;
  domains = [];
  helper = λ _. none;
  patch = λ _. none;
  client = none;
  list_nodes = none;
}

update_status-IsCounted_example :
    IsCounted (length (alive machines)) (update_status library world new_control_plane).tcp
update_status-IsCounted_example =
    update_status-IsCounted library world new_control_plane machines refl

update_status-IsHonest_example :
    IsHonest library world new_control_plane (update_status library world new_control_plane)
update_status-IsHonest_example =
    update_status-IsHonest library world new_control_plane machines refl

abbrev data_at : Machine → Machine
data_at m = record m {
  annotations =
      (
        remediation_for_annotation,
        Value.remediation (record { machine = "cp-x"; timestamp = 7 * second; retry_count = 0 }),
      )
      ∷ [];
}

abbrev last : RemediationData
last = record { machine = "cp-x"; timestamp = 7 * second; retry_count = 0 }

is_last : last_remediation new_control_plane (cp_a ∷ data_at cp_c ∷ []) ≡ some last
unfolding last_remediation lookup cluster_api_control_plan.Controller.Status.newest
    cluster_api_control_plan.Remediation.Limits.remediation_data_from_annotation
is_last = refl

set_last_remediation-IsTold_example :
    IsTold
      (cp_a ∷ data_at cp_c ∷ [])
      new_control_plane
      (set_last_remediation (cp_a ∷ data_at cp_c ∷ []) new_control_plane)
set_last_remediation-IsTold_example =
    set_last_remediation-IsTold (cp_a ∷ data_at cp_c ∷ []) new_control_plane
