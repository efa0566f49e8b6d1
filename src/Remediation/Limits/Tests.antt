-- ===== src/Remediation/Limits/Tests.antt =====
-- A remediation and a retry of it.
use cluster_api_control_plan.Base.{◌*◌, ◌≤◌, ◌≡◌, ◌↔◌, ◌⊎◌, some, [], ◌∷◌, refl, arith, lookup}
use cluster_api_control_plan.Objects.{
  RemediationData, Machine, second, whole_seconds, remediation_for_annotation,
}
use cluster_api_control_plan.Remediation.Limits.{
  RemediationLimits, go, data_for, marshal, recorded_on, check_remediation_retry_limits,
}
use cluster_api_control_plan.Remediation.Limits.Sequence.{
  IsFresh, IsRetry, unrecorded, check_remediation_retry_limits_iff, Fails, Sequence,
  Sequence-le-max_retry,
}
use cluster_api_control_plan.Samples.{cp_b, cp_c}

abbrev limits : RemediationLimits
limits = record { max_retry = 3; retry_period = 5 * second; min_healthy_period = 60 * second }

-- The first remediation, at the time 10s, and that of the replacement at 20s.
abbrev first_data : RemediationData
first_data = data_for cp_b (10 * second) 0

abbrev replacement : Machine
replacement = record cp_c { annotations = (remediation_for_annotation, marshal first_data) ∷ [] }

abbrev next_data : RemediationData
next_data = data_for replacement (20 * second) 1

check_remediation_retry_limits_iff_example :
    (check_remediation_retry_limits cp_b limits 7 ≡ go first_data)
    ↔ (IsFresh cp_b limits 7 first_data ⊎ IsRetry cp_b limits 7 first_data)
check_remediation_retry_limits_iff_example =
    check_remediation_retry_limits_iff cp_b limits 7 first_data

first-IsFresh : IsFresh cp_b limits (10 * second) first_data
unfolding recorded_on lookup
first-IsFresh = unrecorded refl refl

annotated : lookup remediation_for_annotation replacement.annotations ≡ some (marshal first_data)
unfolding lookup
annotated = refl

allowed : check_remediation_retry_limits replacement limits (20 * second) ≡ go next_data
unfolding check_remediation_retry_limits recorded_on lookup marshal
allowed = refl

replacement-Fails : Fails limits first_data next_data
unfolding whole_seconds
replacement-Fails = record {
  replacement = replacement;
  now = 20 * second;
  records = annotated;
  early = omega arith;
  remediated = allowed;
}

two_remediations : Sequence limits 1 next_data
two_remediations =
    Sequence.retry (Sequence.start cp_b (10 * second) first_data first-IsFresh) replacement-Fails

Sequence-le-max_retry_example : (next_data.retry_count ≡ 1) × (1 ≤ limits.max_retry)
Sequence-le-max_retry_example = Sequence-le-max_retry limits 1 next_data two_remediations
