-- ===== src/Remediation/Limits.antt =====
-- controllers/remediation.go: the retry limits of a remediation sequence.
mod Sequence
mod Tests
use cluster_api_control_plan.Base.{
  ℕ, ◌+◌, ◌*◌, Bool, true, false, Option, none, some, String, leb, ltb, if◌then◌else◌, deref,
  lookup, Message, say, counts,
}
use cluster_api_control_plan.Objects.{
  RemediationData, Value, RemediationSpec, Machine, Annotations, second, whole_seconds,
  remediation_for_annotation, remediation_in_progress_annotation,
}

abbrev pub default_max_retry : ℕ
default_max_retry = 3

abbrev pub default_retry_period_seconds : ℕ
default_retry_period_seconds = 300

abbrev pub default_min_healthy_period_seconds : ℕ
default_min_healthy_period_seconds = 3600

-- remediationLimits, its periods in nanoseconds.
pub record RemediationLimits : Type 0 where
  pub max_retry : ℕ
  pub retry_period : ℕ
  pub min_healthy_period : ℕ

unfoldable pub remediation_limits_for : RemediationSpec → RemediationLimits
remediation_limits_for spec = record {
  max_retry = deref spec.max_retry default_max_retry;
  retry_period = deref spec.retry_period_seconds default_retry_period_seconds * second;
  min_healthy_period =
      deref spec.min_healthy_period_seconds default_min_healthy_period_seconds * second;
}

-- The remediation data that an annotation's value unmarshals to, if it does.
unfoldable pub remediation_data_from_annotation : Value → Option RemediationData
remediation_data_from_annotation (Value.remediation d) = some d
remediation_data_from_annotation _ = none

-- The value that the data marshals to: its time loses what is below a second.
unfoldable pub marshal : RemediationData → Value
unfolding whole_seconds
marshal d = Value.remediation (record d { timestamp = whole_seconds d.timestamp })

-- Reasons of the OwnerRemediated condition.
pub data Reason : Type 0 where
  deferred cannot_be_remediated machine_deleting internal_error : Reason

-- What a check says: refuse with a reason and a message, or go on with a value.
pub data Verdict (A : Type 0) : Type 0 where
  refuse : Reason → Message → Verdict A
  go : A → Verdict A

infixl 5 ◌>>=◌ ◌>>◌
abbrev pub ◌>>=◌ : {A B : Type 0} → Verdict A → (A → Verdict B) → Verdict B
refuse reason message >>= f = refuse reason message
go a >>= f = f a

abbrev pub ◌>>◌ : {A B : Type 0} → Verdict A → Verdict B → Verdict B
m >> k = m >>= λ _. k

-- An early return with a reason, where the test says so.
abbrev pub refuse_if : Bool → Reason → Message → Verdict (Unit {0})
refuse_if true reason message = refuse reason message
refuse_if false reason message = go tt

abbrev pub data_for : Machine → ℕ → ℕ → RemediationData
data_for target now retries = record {
  machine = target.name;
  timestamp = now;
  retry_count = retries;
}

-- The part of checkRemediationRetryLimits that follows the reading of the annotation.
unfoldable pub check_retry :
    Machine → RemediationLimits → ℕ → RemediationData → Verdict RemediationData
check_retry target limits now last =
    if leb (last.timestamp + limits.min_healthy_period) now
    then go (data_for target now 0)
    else if ltb now (last.timestamp + limits.retry_period)
    then refuse Reason.deferred (
        counts "the operation already failed in the latest (retryPeriodSeconds)" limits.retry_period
          0 0)
    else if leb limits.max_retry last.retry_count
    then refuse Reason.cannot_be_remediated
        (counts "the operation already failed times (maxRetry)" limits.max_retry 0 0)
    else go (data_for target now (last.retry_count + 1))

abbrev last_remediation : Option Value → Option RemediationData
unfolding remediation_data_from_annotation
last_remediation none = none
last_remediation (some v) = remediation_data_from_annotation v

-- The remediation that the machine's remediation-for annotation records. A value that is no
-- remediation data is ignored.
unfoldable pub recorded_on : Machine → Option RemediationData
unfolding remediation_data_from_annotation
recorded_on m = last_remediation (lookup remediation_for_annotation m.annotations)

unfoldable pub check_remediation_retry_limits :
    Machine → RemediationLimits → ℕ → Verdict RemediationData
unfolding check_retry
check_remediation_retry_limits target limits now = elim (recorded_on target) [
  | none ↦ go (data_for target now 0)
  | some last ↦ check_retry target limits now last
]
