-- ===== src/Controller/Status.antt =====
-- controllers/taloscontrolplane_controller.go: updateStatus; and reconcileRemediationStatus of
-- controllers/remediation.go.
mod Laws
mod Initialized
mod Remediation
mod Tests
use cluster_api_control_plan.Base.{
  ℕ, Bool, true, false, ◌&&◌, ◌||◌, not, Option, none, some, List, [], ◌∷◌, String, map, filter,
  count, length, ltb, if◌then◌else◌, deref, is_some, lookup, sort_by, compare_string, Message,
  Error, Result, ok, err, say, about, str_eq,
}
use cluster_api_control_plan.Objects.{
  Machine, ControlPlaneObject, Library, ObjectRef, RemediationData, Status, holds, fails, unknown,
  Value, set_condition, condition_holds, is_deleting, remediation_in_progress_annotation,
  remediation_for_annotation,
}
use cluster_api_control_plan.Remediation.Limits.{remediation_data_from_annotation}
use cluster_api_control_plan.Scale.{FailureDomain}
use cluster_api_control_plan.Rollout.{
  InfraObject, TalosConfig, Fetched, ControlPlane, new_control_plane,
  reconcile_machine_up_to_date_conditions,
}

abbrev pub condition : String → Status → String → Message → ControlPlaneObject → ControlPlaneObject
condition kind status reason message tcp = record tcp {
  conditions = set_condition kind status reason message tcp.conditions;
}

-- What the status is computed from: the machines, Cluster API's functions on them, the objects of
-- the machines, the patches of their conditions, and the answers of the workload cluster.
pub record World : Type 0 where
  pub selector : String
  pub machines : Result (List Machine)
  pub lowest_version : List Machine → String
  pub aggregate : List Machine → Result Message
  pub read_infra : ObjectRef → Fetched InfraObject
  pub read_talos : String → Fetched TalosConfig
  pub domains : List FailureDomain
  pub helper : Machine → Option Error
  pub patch : Machine → Option Error
  pub client : Option Error
  pub list_nodes : Option Error

abbrev listed : List String → Message
listed [] = say ""
listed (n ∷ ns) = Message.both (about "" n) (listed ns)

abbrev unhealthy_message : List String → Message
unhealthy_message [] = say ""
unhealthy_message (n ∷ []) =
    about "Machine is not healthy (not to be remediated by TalosControlPlane)" n
unhealthy_message (n ∷ ns) =
    Message.both (say "Machines are not healthy (not to be remediated by TalosControlPlane)")
      (listed (n ∷ ns))

abbrev pub remediating_condition : String
remediating_condition = "Remediating"

abbrev names_of : List Machine → List String
names_of machines = sort_by compare_string (map (λ (m : Machine). m.name) machines)

abbrev remediating_with : Result Message → ControlPlaneObject → ControlPlaneObject
remediating_with (err e) tcp =
    condition remediating_condition unknown "InternalError"
      (say "Please check controller logs for errors") tcp
remediating_with (ok message) tcp = condition remediating_condition holds "Remediating" message tcp

-- Given the machines to be remediated and the unhealthy ones.
unfoldable pub set_remediating_condition :
    (List Machine → Result Message)
    → List Machine
    → List Machine
    → ControlPlaneObject
    → ControlPlaneObject
set_remediating_condition aggregate [] unhealthy tcp =
    condition remediating_condition fails "NotRemediating" (unhealthy_message (names_of unhealthy))
      tcp
set_remediating_condition aggregate (m ∷ ms) unhealthy tcp =
    remediating_with (aggregate (m ∷ ms)) tcp

-- The remediation data of an annotation that is there and is valid.
abbrev pub read_data : Option Value → Option RemediationData
read_data none = none
read_data (some v) = remediation_data_from_annotation v

abbrev pub newer : Option RemediationData → Option RemediationData → Option RemediationData
newer last none = last
newer none (some d) = some d
newer (some l) (some d) = if ltb l.timestamp d.timestamp then some d else some l

-- The loop over the machines.
unfoldable pub newest : Option RemediationData → List Machine → Option RemediationData
newest last [] = last
newest last (m ∷ ms) =
    newest (newer last (read_data (lookup remediation_for_annotation m.annotations))) ms

unfoldable pub last_remediation : ControlPlaneObject → List Machine → Option RemediationData
unfolding newest
last_remediation tcp machines =
    elim (read_data (lookup remediation_in_progress_annotation tcp.annotations)) [
      | some d ↦ some d
      | none ↦ newest none machines
    ]

unfoldable pub set_last_remediation : List Machine → ControlPlaneObject → ControlPlaneObject
unfolding last_remediation
set_last_remediation machines tcp = elim (last_remediation tcp machines) [
  | none ↦ tcp
  | some d ↦ record tcp { last_remediation = some d }
]

unfoldable pub reconcile_remediation_status :
    Library → World → List Machine → ControlPlaneObject → ControlPlaneObject
unfolding set_remediating_condition set_last_remediation
reconcile_remediation_status lib w machines tcp = set_last_remediation machines (
    set_remediating_condition w.aggregate (filter lib.is_unhealthy_and_owner_remediated machines)
      (filter lib.is_unhealthy machines) tcp)

abbrev pub initialized_condition : String
initialized_condition = "Initialized"

abbrev pub is_initialized : ControlPlaneObject → Bool
is_initialized tcp = deref tcp.initialized false

unfoldable pub set_initialized_condition : ControlPlaneObject → ControlPlaneObject
set_initialized_condition tcp =
    if is_initialized tcp
    then condition initialized_condition holds "Initialized" (say "") tcp
    else condition initialized_condition fails "NotInitialized"
        (say "Waiting for the API server to answer through the control plane endpoint") tcp

-- The control plane's only machine is on its way out.
unfoldable pub initialization_on_hold : Library → List Machine → Bool
initialization_on_hold lib [] = false
initialization_on_hold lib (m ∷ []) = is_deleting m || lib.is_unhealthy_and_owner_remediated m
initialization_on_hold lib (m ∷ n ∷ ms) = false

abbrev pub alive : List Machine → List Machine
alive = filter (λ m. not (is_deleting m))

-- The machines that are not being deleted and for which a condition holds.
abbrev pub ready_for : String → List Machine → ℕ
ready_for kind machines = count (λ m. condition_holds kind m.conditions) (alive machines)

unfoldable pub count_replicas : List Machine → ControlPlaneObject → ControlPlaneObject
count_replicas machines tcp = record tcp {
  counters = record tcp.counters {
    ready = ready_for "Ready" machines;
    available = ready_for "Available" machines;
    up_to_date = ready_for "UpToDate" machines;
  };
}

unfoldable pub set_basics : List Machine → ControlPlaneObject → ControlPlaneObject
set_basics machines tcp = record tcp {
  counters = record {
    replicas = length (alive machines);
    ready = 0;
    available = 0;
    up_to_date = 0;
  };
}

abbrev pub set_version : String → ControlPlaneObject → ControlPlaneObject
set_version v tcp = if str_eq v "" then tcp else record tcp { lowest_version = some v }

-- The object, the machines with their conditions, and the error.
pub record Outcome : Type 0 where
  pub tcp : ControlPlaneObject
  pub machines : List Machine
  pub error : Option Error

module _ (lib : Library) (w : World) where
  -- The UpToDate conditions. The loop visits the machines that are not being deleted and leaves the
  -- others; its errors are only logged.
  unfoldable pub mark_up_to_date : ControlPlaneObject → List Machine → List Machine
  mark_up_to_date tcp machines =
      elim (new_control_plane w.read_infra w.read_talos w.domains (alive machines)) [
        | err _ ↦ machines
        | ok cp ↦ (reconcile_machine_up_to_date_conditions lib tcp w.helper w.patch cp machines).0
      ]

  -- Whether the workload cluster answers, unless the answer is not asked for.
  unfoldable pub probe : List Machine → ControlPlaneObject → ControlPlaneObject
  unfolding initialization_on_hold
  probe machines tcp =
      if not (is_initialized tcp) && initialization_on_hold lib machines
      then tcp
      else if is_some w.client || is_some w.list_nodes
      then tcp
      else condition "Available" holds "Available" (say "") (record tcp { initialized = some true })

  abbrev pub finish : List Machine → ControlPlaneObject → Outcome
  finish machines tcp = record {
    tcp = set_initialized_condition (probe machines (count_replicas machines tcp));
    machines = machines;
    error = none;
  }

  -- A control plane that is being deleted does not ask its machines or its workload cluster.
  abbrev pub unless_deleting : Option ℕ → List Machine → ControlPlaneObject → Outcome
  unless_deleting (some _) machines tcp = record { tcp = tcp; machines = machines; error = none }
  unless_deleting none machines tcp =
      let versioned = set_version (w.lowest_version (alive machines)) tcp in
      finish (mark_up_to_date versioned machines) versioned

  abbrev pub after_basics : List Machine → ControlPlaneObject → Outcome
  after_basics machines tcp = unless_deleting tcp.deletion machines tcp

  abbrev pub after_list : Result (List Machine) → ControlPlaneObject → Outcome
  after_list (err e) tcp = record { tcp = tcp; machines = []; error = some e }
  after_list (ok machines) tcp =
      after_basics machines (set_basics machines (reconcile_remediation_status lib w machines tcp))

  unfoldable pub update_status : ControlPlaneObject → Outcome
  unfolding reconcile_remediation_status set_initialized_condition count_replicas set_basics
      mark_up_to_date probe
  update_status tcp = after_list w.machines (record tcp { selector = w.selector })
