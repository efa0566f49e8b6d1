-- ===== src/Samples/Worlds.antt =====
-- What the tests of the scaling, the rollout and the updates meet.
use cluster_api_control_plan.Base.{
  pos, Bool, true, none, some, List, [], ◌∷◌, String, Result, ok, str_eq, say,
}
use cluster_api_control_plan.Objects.{Machine, ControlPlaneObject, RolloutStrategy, rolling, holds}
use cluster_api_control_plan.Remediation.Api.{done}
use cluster_api_control_plan.Bootstrap
use cluster_api_control_plan.Bootstrap.{Nodes}
use cluster_api_control_plan.Preflight.Nodes.{NodeCalls}
use cluster_api_control_plan.Preflight.Checks.{etcd_cluster_healthy}
use cluster_api_control_plan.Scale.{FailureDomain}
use cluster_api_control_plan.Scale.Down.{boot_started, boot_stopped}
use cluster_api_control_plan.Scale.Up
use cluster_api_control_plan.Rollout.{ControlPlane, InfraObject, TalosConfig, found}
use cluster_api_control_plan.Boot
use cluster_api_control_plan.Boot.{LabelRules}
use cluster_api_control_plan.InPlace
use cluster_api_control_plan.InPlace.Patch.{Plan, Json, Extensions, json_merge_patch}
use cluster_api_control_plan.InPlace.Trigger.{Client}
use cluster_api_control_plan.Machines
use cluster_api_control_plan.Samples.{control_plane, cp_a, cp_b, cp_c, talos_config, dial, statuses}

-- A control plane of three under a rolling update that may surge by one, its etcd healthy.
abbrev pub rolling_update : RolloutStrategy
rolling_update = record {
  kind = rolling;
  rolling_update = some (record { max_surge = some (pos 1) });
}

abbrev pub rolling_plane : ControlPlaneObject
rolling_plane = record control_plane {
  strategy = some rolling_update;
  conditions =
      (etcd_cluster_healthy, record { status = holds; reason = ""; message = say "" }) ∷ [];
}

-- A machine of an older version.
abbrev pub old_a : Machine
old_a = record cp_a { version = "v1.29.0" }

abbrev pub infra_of : String → InfraObject
infra_of name = record {
  name = name;
  annotations = ("cloned-from-name", "metal") ∷ ("cloned-from-groupkind", "MetalTemplate") ∷ [];
  spec = "";
}

abbrev pub config_of : String → TalosConfig
config_of name = record { name = name; spec = talos_config }

abbrev pub two_domains : List FailureDomain
two_domains =
    record { name = "east"; control_plane = some true }
    ∷ record { name = "west"; control_plane = none }
    ∷ []

-- Three machines, the first of an older version.
abbrev pub mixed : ControlPlane
mixed = record {
  domains = two_domains;
  machines = old_a ∷ cp_b ∷ cp_c ∷ [];
  infra_objects = ("cp-a", infra_of "cp-a") ∷ [];
  talos_configs = ("cp-a", config_of "cp-a") ∷ [];
}

-- The first of the domains.
abbrev pub pick_first : List FailureDomain → List Machine → List Machine → String
pick_first [] _ _ = ""
pick_first (d ∷ ds) _ _ = d.name

abbrev pub label_rules : LabelRules
label_rules = record { is_valid_label_value = λ s. str_eq s "cp" }

abbrev pub boot_env : Boot.Env
boot_env = record {
  machine_name = ok "cp-d";
  template = λ ref. found ref;
  clone = λ ref name. ok (record ref { kind = "Metal"; name = name });
  create_config = λ _. none;
  create_machine = λ _. none;
  patch_control_plane = none;
}

abbrev pub healthy_node : Machine → Result NodeCalls
healthy_node m = ok (record {
  service_list = ok [];
  static_pod_statuses = ok (record { id = "kube-system/kube-apiserver-x"; ready = true } ∷ []);
})

abbrev pub up_world : Up.World
up_world = record {
  components = "kube-apiserver" ∷ [];
  nodes = healthy_node;
  watch = λ _. none;
  events = boot_started "cp-a" ∷ boot_stopped "cp-a" ∷ [];
  delete = λ _. done;
  boot = boot_env;
  rules = label_rules;
  cluster_name = "c";
  pick_fewest = pick_first;
  pick_most = pick_first;
  statuses = statuses;
}

-- JSON as the name of a machine and its version; a merge patch is the text that it gives.
abbrev pub json : Json
json = record {
  encode_machine = λ m. ok m.version;
  encode_infra = λ obj. obj.name;
  encode_config = λ config. config.name;
  merge_patch = λ current patch. ok patch;
  decode_patch = λ text. ok text;
  apply_patch = λ current patch. ok patch;
  unmarshal = λ text. ok text;
}

-- One extension, which takes a machine to the version v1.30.0.
abbrev pub extensions : Extensions
extensions = record {
  all = λ _. ok ("upgrader" ∷ []);
  call = λ _ _ _. ok (record {
    failure = none;
    machine_patch = some (record { kind = json_merge_patch; text = "v1.30.0" });
    infrastructure_patch = none;
    bootstrap_patch = none;
  });
}

abbrev pub client : Client
client = record {
  patch = λ _. none;
  apply_infra = λ _. none;
  apply_config = λ _. none;
  apply_machine = λ _. none;
  mark = λ _. none;
}

abbrev pub in_place_world : InPlace.World
in_place_world = record {
  enabled = true;
  dial = dial;
  components = "kube-apiserver" ∷ [];
  nodes = healthy_node;
  json = json;
  extensions = extensions;
  client = client;
}

abbrev pub booted_nodes : Nodes
booted_nodes = record {
  has_etcd_data = λ _. ok true;
  client = λ _. none;
  bootstrap = λ _. Bootstrap.accepted;
}

-- The world of a reconcile, with and without updates in place.
abbrev pub machines_world : Bool → Machines.World
machines_world enabled = record {
  read_infra = λ ref. found (infra_of ref.name);
  read_talos = λ name. found (config_of name);
  domains = [];
  patcher = record { helper = λ _. none; patch = λ _. none };
  bootstrap = booted_nodes;
  in_place = record in_place_world { enabled = enabled };
  up = up_world;
}

-- The update of the old machine.
abbrev pub plan : Plan
plan = record {
  machine = old_a;
  desired_machine = record old_a { version = "v1.30.0" };
  desired_infra_machine = some (infra_of "cp-a");
  desired_talos_config = config_of "cp-a";
}
