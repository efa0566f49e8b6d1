-- ===== src/Remediation/Limits/Sequence.antt =====
-- When the retry limits allow a remediation, and how long a sequence of retries can get.
use cluster_api_control_plan.Base.{
  ℕ, zero, suc, ◌+◌, ◌≤◌, ◌<◌, ◌≡◌, ◌↔◌, ◌⊎◌, inl, inr, none, some, lookup, arith, leb, Bool-cases,
  Option-cases,
}
use cluster_api_control_plan.Objects.{
  RemediationData, Machine, whole_seconds, remediation_for_annotation,
}
use cluster_api_control_plan.Remediation.Limits.{
  RemediationLimits, marshal, go, data_for, check_remediation_retry_limits, recorded_on,
}

module _ (target : Machine) (limits : RemediationLimits) (now : ℕ) where
  -- A new sequence: no remediation is recorded on the machine, or one that is so long ago that a
  -- failure does not count as a retry of it.
  pub data IsFresh (d : RemediationData) : Type 0 where
    unrecorded : recorded_on target ≡ none → d ≡ data_for target now 0 → IsFresh d
    outlived :
        (last : RemediationData)
        → recorded_on target ≡ some last
        → last.timestamp + limits.min_healthy_period ≤ now
        → d ≡ data_for target now 0
        → IsFresh d

  -- A retry of a recent remediation, after the retry period and below the limit.
  pub record IsRetry (d : RemediationData) : Type 0 where
    pub last : RemediationData
    pub recorded : recorded_on target ≡ some last
    pub recent : now < last.timestamp + limits.min_healthy_period
    pub waited : last.timestamp + limits.retry_period ≤ now
    pub below_limit : last.retry_count < limits.max_retry
    pub counted : d ≡ data_for target now (last.retry_count + 1)

  allows :
      (d : RemediationData)
      → check_remediation_retry_limits target limits now ≡ go d
      → IsFresh d ⊎ IsRetry d
  unfolding check_remediation_retry_limits
  allows d h = elim (Option-cases (recorded_on target)) [
    | inl nothing ↦ inl (unrecorded nothing (ground arith))
    | inr (last, e) ↦ elim (Bool-cases (leb (last.timestamp + limits.min_healthy_period) now)) [
      | inl old ↦ inl (outlived last e (ground arith) (ground arith))
      | inr recent ↦ inr (record {
        last = last;
        recorded = e;
        recent = ground arith;
        waited = ground arith;
        below_limit = ground arith;
        counted = ground arith;
      })
    ]
  ]

  allowed :
      (d : RemediationData)
      → IsFresh d ⊎ IsRetry d
      → check_remediation_retry_limits target limits now ≡ go d
  unfolding check_remediation_retry_limits
  allowed d (inl (unrecorded e same)) = ground arith
  allowed d (inl (outlived last e old same)) = ground arith
  allowed d (inr r) = ground arith

  -- The limits let a machine be remediated exactly when that starts a new sequence, with no retry
  -- counted, or is a retry of the remediation recorded on it, with one retry more than that one;
  -- the data that is recorded names the machine and the time.
  pub check_remediation_retry_limits_iff :
      (d : RemediationData)
      → (check_remediation_retry_limits target limits now ≡ go d) ↔ (IsFresh d ⊎ IsRetry d)
  check_remediation_retry_limits_iff d = (allows d, allowed d)

-- A machine that replaces one remediated with the data `d`, as its annotation says, and that is
-- itself remediated within the min healthy period, with the data `next`.
pub record Fails (limits : RemediationLimits) (d next : RemediationData) : Type 0 where
  pub replacement : Machine
  pub now : ℕ
  pub records : lookup remediation_for_annotation replacement.annotations ≡ some (marshal d)
  pub early : now < whole_seconds d.timestamp + limits.min_healthy_period
  pub remediated : check_remediation_retry_limits replacement limits now ≡ go next

-- A remediation and `n` failing replacements after it, the last one remediated with the data.
pub data Sequence (limits : RemediationLimits) : ℕ → RemediationData → Type 0 where
  start :
      (target : Machine) (now : ℕ) (d : RemediationData)
      → IsFresh target limits now d
      → Sequence limits zero d
  retry :
      {n : ℕ} {d next : RemediationData}
      → Sequence limits n d
      → Fails limits d next
      → Sequence limits (suc n) next

recorded_on-marshal :
    (m : Machine) (d : RemediationData)
    → lookup remediation_for_annotation m.annotations ≡ some (marshal d)
    → recorded_on m ≡ some (record d { timestamp = whole_seconds d.timestamp })
unfolding recorded_on marshal
recorded_on-marshal m d e = rw e

Fails-counts :
    (limits : RemediationLimits) (d next : RemediationData)
    → Fails limits d next
    → (next.retry_count ≡ d.retry_count + 1)
      × (next.retry_count ≤ limits.max_retry)
      × (whole_seconds d.timestamp + limits.retry_period ≤ next.timestamp)
unfolding check_remediation_retry_limits
Fails-counts limits d next f =
    let e = recorded_on-marshal f.replacement d f.records in
    (ground arith, ground arith, ground arith)

Sequence-count :
    {limits : RemediationLimits} {n : ℕ} {d : RemediationData}
    → Sequence limits n d
    → (d.retry_count ≡ n) × (n ≤ limits.max_retry)
Sequence-count (start target now d (unrecorded _ same)) = ground arith
Sequence-count (start target now d (outlived _ _ _ same)) = ground arith
Sequence-count {limits} (retry {n = n} {d = d} {next = next} s f) =
    omega (arith, Sequence-count s, Fails-counts limits d next f)

-- A machine whose replacements always fail within the min healthy period is replaced at most
-- maxRetry times after the first remediation, and the recorded retry count is that number.
pub Sequence-le-max_retry :
    (limits : RemediationLimits) (n : ℕ) (d : RemediationData)
    → Sequence limits n d
    → (d.retry_count ≡ n) × (n ≤ limits.max_retry)
Sequence-le-max_retry limits n d s = Sequence-count s

-- Two remediations of a sequence are at least the retry period apart, by the recorded time.
pub Fails-waits :
    (limits : RemediationLimits) (d next : RemediationData)
    → Fails limits d next
    → whole_seconds d.timestamp + limits.retry_period ≤ next.timestamp
Fails-waits limits d next f = (Fails-counts limits d next f).2
