-- ===== src/Remediation/Checks/Guards.antt =====
-- What has to hold of a machine and its control plane for the machine to be remediated.
use cluster_api_control_plan.Base.{
  ℕ, ◌≤◌, ◌≡◌, ◌⊎◌, inl, inr, Bool, true, false, ◌||◌, Option, none, some, List, [], ◌∷◌, length,
  deref, All, Any, arith, refl, Bool-cases, Result, ok, err, is_some,
}
use cluster_api_control_plan.Objects.{
  RemediationData, Machine, ControlPlaneObject, Cluster, Library, is_deleting, has_node, same_name,
  Member,
}
use cluster_api_control_plan.Hooks.{is_updating_in_place}
use cluster_api_control_plan.Quorum.{
  Statuses, can_safely_remediate_machine, recorded_etcd_from, can_safely_remove_etcd_member,
}
use cluster_api_control_plan.Remediation.Limits.{
  go, remediation_limits_for, check_remediation_retry_limits,
}
use cluster_api_control_plan.Remediation.Progress.{remediation_in_progress}
use cluster_api_control_plan.Remediation.Api.{Api}
use cluster_api_control_plan.Remediation.Checks.{
  topology_upgrade_pending, etcd_data_holder, remediation_before_initialization, check_others,
  check_quorum, remediation_when_initialized, check_updates, may_remediate,
}

module _ (lib : Library) (target : Machine) where
  -- No machine but the target is being deleted, or has no node although it is not unhealthy.
  abbrev pub IsSettled : Machine → Type 0
  IsSettled m =
      (same_name m target ≡ false)
      → (is_deleting m ≡ false) × ((lib.is_unhealthy m ≡ true) ⊎ (has_node m ≡ true))

  check_others-go : (ms : List Machine) → check_others lib target ms ≡ go tt → All IsSettled ms
  unfolding check_others
  check_others-go [] h = tt
  check_others-go (m ∷ ms) h = elim (Bool-cases (same_name m target)) [
    | inl same ↦ ((λ other. cc), check_others-go ms (ground arith))
    | inr other ↦ ((λ _. ground arith), check_others-go ms (ground arith))
  ]

  abbrev pub IsNotUpdating : Machine → Type 0
  IsNotUpdating m = (same_name m target ≡ false) → is_updating_in_place lib m ≡ false

  check_updates-go :
      (ms : List Machine) → check_updates lib target ms ≡ go tt → All IsNotUpdating ms
  unfolding check_updates
  check_updates-go [] h = tt
  check_updates-go (m ∷ ms) h = ((λ other. ground arith), check_updates-go ms (ground arith))

module _ (api : Api) (target : Machine) where
  -- A machine other than the target, not being deleted, that holds etcd data.
  abbrev pub HoldsData : Machine → Type 0
  HoldsData m =
      (same_name m target ≡ false) × (is_deleting m ≡ false) × (api.has_etcd_data m ≡ ok true)

  etcd_data_holder-HoldsData :
      (ms : List Machine) → is_some (etcd_data_holder api target ms).0 ≡ true → Any HoldsData ms
  unfolding etcd_data_holder
  etcd_data_holder-HoldsData [] h = absurd (cc)
  etcd_data_holder-HoldsData (m ∷ ms) h = elim (Bool-cases (same_name m target || is_deleting m)) [
    | inl skip ↦ inr (etcd_data_holder-HoldsData ms (ground arith))
    | inr ask ↦ answer (api.has_etcd_data m) refl ask (etcd_data_holder-HoldsData ms)
  ]
    where
      answer :
          (r : Result Bool)
          → api.has_etcd_data m ≡ r
          → (same_name m target || is_deleting m) ≡ false
          → (is_some (etcd_data_holder api target ms).0 ≡ true → Any HoldsData ms)
          → Any HoldsData (m ∷ ms)
      answer (ok true) e ask later = inl (ground arith, ground arith, e)
      answer (ok false) e ask later = inr (later (ground arith))
      answer (err why) e ask later = inr (later (ground arith))

  -- What protects the etcd data before the control plane is initialized: nothing was bootstrapped,
  -- or the target never joined and another machine holds the data.
  abbrev pub IsExpendable : ControlPlaneObject → List Machine → Type 0
  IsExpendable tcp machines =
      (tcp.bootstrapped ≡ false)
      ⊎ ((has_node target ≡ false) × (2 ≤ length machines) × Any HoldsData machines)

  before_initialization-go :
      (tcp : ControlPlaneObject) (machines : List Machine)
      → remediation_before_initialization api tcp target machines ≡ go tt
      → IsExpendable tcp machines
  unfolding remediation_before_initialization
  before_initialization-go tcp machines h = elim (Bool-cases tcp.bootstrapped) [
    | inr fresh ↦ inl fresh
    | inl old ↦ inr (ground arith, ground arith, etcd_data_holder-HoldsData machines (ground arith))
  ]

module _ (lib : Library) (statuses : Statuses) (target : Machine) (machines : List Machine) where
  -- A member list that a healthy machine reported says that removing the target's member is safe.
  pub record IsSafeToLose : Type 0 where
    pub members : List Member
    pub reported : (recorded_etcd_from statuses machines (some target)).0 ≡ ok members
    pub safe :
        (can_safely_remove_etcd_member members target machines
          (recorded_etcd_from statuses machines (some target)).1).0
        ≡ true

  check_quorum-go : check_quorum lib target machines statuses ≡ go tt → IsSafeToLose
  unfolding check_quorum can_safely_remediate_machine
  check_quorum-go h = from (recorded_etcd_from statuses machines (some target)).0 refl
    where
      from :
          (r : Result (List Member))
          → (recorded_etcd_from statuses machines (some target)).0 ≡ r
          → IsSafeToLose
      from (ok members) e = record { members = members; reported = e; safe = ground arith }
      from (err why) e = absurd (ground arith)

  -- What protects an initialized control plane.
  pub record IsProtected : Type 0 where
    pub several : 2 ≤ length machines
    pub settled : All (IsSettled lib target) machines
    pub quorum : IsSafeToLose

  when_initialized-go :
      remediation_when_initialized lib target machines statuses ≡ go tt → IsProtected
  unfolding remediation_when_initialized
  when_initialized-go h = record {
    several = ground arith;
    settled = check_others-go lib target machines (ground arith);
    quorum = check_quorum-go (ground arith);
  }

module _ (lib : Library) (api : Api) (cluster : Option Cluster) (tcp : ControlPlaneObject)
    (target : Machine) (machines : List Machine) (statuses : Statuses) (now : ℕ) where
  -- All that holds when a machine is remediated.
  pub record IsRemediable (d : RemediationData) : Type 0 where
    pub alone : remediation_in_progress tcp ≡ false
    pub no_upgrade : topology_upgrade_pending cluster tcp ≡ none
    pub within_limits :
        check_remediation_retry_limits target (remediation_limits_for tcp.remediation) now ≡ go d
    pub no_update : All (IsNotUpdating lib target) machines
    pub initialized : deref tcp.initialized false ≡ true → IsProtected lib statuses target machines
    pub uninitialized : deref tcp.initialized false ≡ false → IsExpendable api target tcp machines

  -- A machine is remediated only if no remediation is in progress, the topology is not about to
  -- upgrade the control plane, the retry limits allow it and no other machine is updated in place;
  -- and, once the control plane is initialized, only if there are two machines at least, the others
  -- are neither being deleted nor still provisioning, and etcd keeps quorum; before that, only if
  -- nothing was bootstrapped, or the machine has no node and another one holds the etcd data.
  pub may_remediate-IsRemediable :
      (d : RemediationData)
      → may_remediate lib api cluster tcp target machines statuses now ≡ go d
      → IsRemediable d
  unfolding may_remediate
  may_remediate-IsRemediable d h = record {
    alone = ground arith;
    no_upgrade = ground arith;
    within_limits = ground arith;
    no_update = check_updates-go lib target machines (ground arith);
    initialized = λ e. when_initialized-go lib statuses target machines (ground arith);
    uninitialized = λ e. before_initialization-go api target tcp machines (ground arith);
  }
