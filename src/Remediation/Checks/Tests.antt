-- ===== src/Remediation/Checks/Tests.antt =====
-- A machine among three that may be remediated.
use cluster_api_control_plan.Base.{
  ℕ, ◌≡◌, ◌⊎◌, Bool, true, false, Option, none, some, List, [], ◌∷◌, refl, Result, ok, String,
}
use cluster_api_control_plan.Objects.{Machine, RemediationData}
use cluster_api_control_plan.Remediation.Limits.{Verdict, go, data_for}
use cluster_api_control_plan.Remediation.Api.{Api, done}
use cluster_api_control_plan.Remediation.Checks.{may_remediate}
use cluster_api_control_plan.Remediation.Checks.Guards.{IsRemediable, may_remediate-IsRemediable}
use cluster_api_control_plan.Samples.{cp_a, cp_b, cp_c, control_plane, cluster, library, statuses}

abbrev api : Api
api = record {
  helper = λ _. none;
  patch = λ _. done;
  delete = λ _. done;
  patch_control_plane = none;
  has_etcd_data = λ _. ok false;
}

abbrev machines : List Machine
machines = cp_a ∷ cp_b ∷ cp_c ∷ []

abbrev data_of_b : RemediationData
data_of_b = data_for cp_b 90 0

b_may_be_remediated :
    may_remediate library api (some cluster) control_plane cp_b machines statuses 90 ≡ go data_of_b
unfolding may_remediate cluster_api_control_plan.Base.lookup
    cluster_api_control_plan.Remediation.Limits.check_remediation_retry_limits
    cluster_api_control_plan.Remediation.Limits.recorded_on cluster_api_control_plan.Base.insert
    cluster_api_control_plan.Etcd.Names.etcd_member_matches_machine
b_may_be_remediated = refl

may_remediate-IsRemediable_example :
    IsRemediable library api (some cluster) control_plane cp_b machines statuses 90 data_of_b
may_remediate-IsRemediable_example =
    may_remediate-IsRemediable library api (some cluster) control_plane cp_b machines statuses 90
      data_of_b b_may_be_remediated
