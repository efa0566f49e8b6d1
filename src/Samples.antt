-- ===== src/Samples.antt =====
-- Machines, control planes and answers that the tests of the other modules share.
pub mod Worlds
use cluster_api_control_plan.Base.{
  pos, str_eq, ℕ, Bool, true, false, none, some, List, [], ◌∷◌, String, ok, say, Map,
}
use cluster_api_control_plan.Objects.{
  Machine, ObjectRef, DeletionSpec, TalosConfigSpec, ControlPlaneObject, Cluster, Library, Member,
  plain, holds, internal_ip,
}
use cluster_api_control_plan.Quorum.{MachineStatus, Statuses}
use cluster_api_control_plan.Talos.{Service, MemberMessage, EtcdCalls, Dial}
use cluster_api_control_plan.PreTerminate.Hook.{pre_terminate_hook}

abbrev pub template_ref : ObjectRef
template_ref = record { api_group = "infrastructure"; kind = "MetalTemplate"; name = "metal" }

abbrev pub no_timeouts : DeletionSpec
no_timeouts = record { node_drain = none; node_volume_detach = none; node_deletion = none }

-- A machine with a node of its name, an address, and the hook.
abbrev pub running_machine : String → ℕ → Machine
running_machine name created = record {
  name = name;
  created = created;
  deletion = none;
  labels = [];
  annotations = (pre_terminate_hook, plain "") ∷ [];
  version = "v1.30.0";
  infrastructure_ref = template_ref;
  config_ref = some name;
  readiness_gates = [];
  deletion_spec = no_timeouts;
  failure_domain = "";
  node_ref = some name;
  addresses = record { kind = internal_ip; address = name } ∷ [];
  conditions = [];
}

abbrev pub cp_a : Machine
cp_a = running_machine "cp-a" 1

abbrev pub cp_b : Machine
cp_b = running_machine "cp-b" 2

abbrev pub cp_c : Machine
cp_c = running_machine "cp-c" 3

-- A machine that is being deleted and waits at the pre-terminate phase.
abbrev pub deleting_b : Machine
deleting_b = record cp_b {
  deletion = some 50;
  conditions =
      (
        "Deleting",
        record { status = holds; reason = "WaitingForPreTerminateHook"; message = say "" },
      )
      ∷ [];
}

abbrev pub member_of : ℕ → String → Member
member_of id name = record { id = id; hostname = name; is_learner = false }

abbrev pub three_members : List Member
three_members = member_of 1 "cp-a" ∷ member_of 2 "cp-b" ∷ member_of 3 "cp-c" ∷ []

abbrev pub talos_config : TalosConfigSpec
talos_config = record {
  talos_version = "v1.7";
  generate_type = "controlplane";
  config = "";
  config_patches = none;
  strategic_patches = none;
  hostname_source = "";
  image_factory = none;
}

abbrev pub control_plane : ControlPlaneObject
control_plane = record {
  name = "cp";
  deletion = none;
  finalizers = [];
  annotations = [];
  replicas = pos 3;
  version = "v1.30.0";
  remediation = record {
    max_retry = none;
    retry_period_seconds = none;
    min_healthy_period_seconds = none;
  };
  strategy = none;
  template_annotations = [];
  template = record {
    labels = [];
    infrastructure_ref = template_ref;
    readiness_gates = [];
    deletion_spec = no_timeouts;
  };
  config = talos_config;
  selector = "";
  lowest_version = none;
  last_remediation = none;
  counters = record { replicas = 0; ready = 0; available = 0; up_to_date = 0 };
  initialized = some true;
  bootstrapped = true;
  bootstrapped_machine = "cp-a";
  conditions = [];
}

-- The same before it is initialized and bootstrapped.
abbrev pub new_control_plane : ControlPlaneObject
new_control_plane = record control_plane {
  initialized = none;
  bootstrapped = false;
  bootstrapped_machine = "";
}

abbrev pub cluster : Cluster
cluster = record { name = "c"; deletion = none; topology_version = none; upgrade_step = none }

abbrev pub all_healthy : Map Bool
all_healthy = ("cp-a", true) ∷ ("cp-b", true) ∷ ("cp-c", true) ∷ []

-- A library that takes the machines called cp-b as the unhealthy ones.
abbrev pub library : Library
library = record {
  is_unhealthy = λ m. is_b m.name;
  is_unhealthy_and_owner_remediated = λ m. is_b m.name;
  has_remediate_machine = λ _. false;
  is_controlled_by = λ _ _. true;
  matches_kubernetes_version = λ v m. str_eq m.version v;
  group_kind = λ ref. ref.kind;
  cluster_label = "cluster-name";
  control_plane_label = "control-plane";
  control_plane_name_label = "control-plane-name";
  cloned_from_name = "cloned-from-name";
  cloned_from_group_kind = "cloned-from-groupkind";
  update_in_progress = "in-place.update/in-progress";
  pending_hooks = "runtime.pending-hooks";
  delete_machine = "delete-machine";
  update_machine = "UpdateMachine";
}
  where
    is_b : String → Bool
    is_b s = str_eq s "cp-b"

abbrev pub seen_healthy : MachineStatus
seen_healthy = record { healthy = true; members = three_members; list_err = none }

abbrev pub statuses : Statuses
statuses = ("cp-a", seen_healthy) ∷ ("cp-c", seen_healthy) ∷ []

abbrev pub etcd_service : Service
etcd_service = record { hostname = ""; state = "Running"; events = "Running" ∷ []; healthy = true }

abbrev pub three_message : MemberMessage
three_message = record { hostname = "cp-a"; members = three_members }

-- A machine whose etcd is healthy and that does what it is asked.
abbrev pub etcd_calls : EtcdCalls
etcd_calls = record {
  service_info = ok (etcd_service ∷ []);
  member_list = ok (three_message ∷ []);
  forfeit_leadership = none;
  leave_cluster = none;
  remove_member = λ _. none;
}

abbrev pub dial : Dial
dial _ = ok etcd_calls
