-- ===== src/Boot.antt =====
-- controllers/taloscontrolplane_controller.go: the creation of a control plane machine, with its
-- infrastructure and its configuration; and initializeControlPlane of controllers/bootstrap.go.
mod Labels
pub mod Once
mod Laws
mod Rolled
mod Tests
pub use Labels.{
  fnv32a, hex, must_format_value, control_plane_machine_labels_for_cluster, LabelRules,
}
use cluster_api_control_plan.Base.{
  ℕ, ◌*◌, Option, none, some, List, [], ◌∷◌, ◌++◌, String, Message, Error, Result, ok, err, say,
  Map,
}
use cluster_api_control_plan.Objects.{
  Machine, ControlPlaneObject, Library, ObjectRef, TalosConfigSpec, second, fails, set_condition,
}
use cluster_api_control_plan.PreTerminate.Hook.{desired_machine_annotations}
use cluster_api_control_plan.Remediation.Progress.{clear_remediation_in_progress}
use cluster_api_control_plan.Scale.{FailureDomain}
use cluster_api_control_plan.Rollout.{
  ControlPlane, Fetched, found, missing, unreadable, next_failure_domain_for_scale_up,
}

-- What the creation meets: the generated name, the template, the objects that Cluster API and the
-- API server create, and the patch of the control plane.
pub record Env : Type 0 where
  pub machine_name : Result String
  pub template : ObjectRef → Fetched ObjectRef
  pub clone : ObjectRef → String → Result ObjectRef
  pub create_config : String → Option Error
  pub create_machine : Machine → Option Error
  pub patch_control_plane : Option Error

-- What is asked of the API server, in order.
pub data Effect : Type 0 where
  clones : ObjectRef → String → Effect
  creates_config : String → TalosConfigSpec → Effect
  creates_machine : Machine → Effect
  event : String → Message → Effect

pub record Outcome : Type 0 where
  pub tcp : ControlPlaneObject
  pub effects : List Effect
  pub requeue_after : ℕ
  pub error : Option Error

abbrev pub machines_created : String
machines_created = "MachinesCreated"

abbrev not_created : String → Message → ControlPlaneObject → ControlPlaneObject
not_created reason message tcp = record tcp {
  conditions = set_condition machines_created fails reason message tcp.conditions;
}

abbrev stop : String → String → Error → List Effect → ControlPlaneObject → Outcome
stop reason text e effects tcp = record {
  tcp = not_created reason (Message.both (say text) e) tcp;
  effects = effects;
  requeue_after = 0;
  error = some e;
}

-- A template that does not exist is looked for again after a while.
abbrev template_missing : ControlPlaneObject → Outcome
template_missing tcp =
    record (stop "InfrastructureTemplateCloningFailed" "Failed to retrieve infrastructure template"
      (say "not found") [] tcp) { requeue_after = 30 * second; error = none }

abbrev after_clear : List Effect → ControlPlaneObject × Option Error → Outcome
after_clear effects (tcp, e) = record {
  tcp = tcp;
  effects = effects;
  requeue_after = 20 * second;
  error = e;
}

module _ (lib : Library) (rules : LabelRules)
    (pick_fewest : List FailureDomain → List Machine → List Machine → String) (env : Env)
    (cluster_name : String) (cp : ControlPlane) (tcp : ControlPlaneObject) where
  -- The machine that is created. The API server sets its time of creation.
  unfoldable pub new_machine : String → ObjectRef → Machine
  new_machine name infra_ref = record {
    name = name;
    created = 0;
    deletion = none;
    labels = control_plane_machine_labels_for_cluster lib rules tcp cluster_name;
    annotations = desired_machine_annotations tcp;
    version = tcp.version;
    infrastructure_ref = infra_ref;
    config_ref = some name;
    readiness_gates = tcp.template.readiness_gates;
    deletion_spec = tcp.template.deletion_spec;
    failure_domain = next_failure_domain_for_scale_up lib tcp pick_fewest cp;
    node_ref = none;
    addresses = [];
    conditions = [];
  }

  -- The creation of the machine has answered; it ends the remediation that it completes.
  unfoldable pub after_create : List Effect → Option Error → Outcome
  after_create effects (some e) =
      record (stop "MachineGenerationFailed" "Failed to create machine" e effects tcp) {
        error = some (Message.both (say "Failed to create machine") e);
      }
  after_create effects none =
      after_clear effects (clear_remediation_in_progress env.patch_control_plane tcp)

  abbrev pub asked : ObjectRef → String → Machine → List Effect
  asked template name m =
      clones template name ∷ creates_config name tcp.config ∷ creates_machine m ∷ []

  -- generateTalosConfig has answered.
  unfoldable pub after_config : ObjectRef → String → ObjectRef → Option Error → Outcome
  unfolding after_create
  after_config template name infra_ref (some e) =
      stop "BootstrapTemplateCloningFailed" "Failed to create bootstrap configuration"
        (Message.both (say "Failed to create bootstrap configuration") e)
        (clones template name ∷ creates_config name tcp.config ∷ []) tcp
  after_config template name infra_ref none =
      after_create (asked template name (new_machine name infra_ref))
        (env.create_machine (new_machine name infra_ref))

  unfoldable pub after_clone : ObjectRef → String → Result ObjectRef → Outcome
  unfolding after_config
  after_clone template name (err e) =
      stop "InfrastructureTemplateCloningFailed" "Failed to clone infrastructure template" e
        (clones template name ∷ []) tcp
  after_clone template name (ok infra_ref) =
      after_config template name infra_ref (env.create_config name)

  unfoldable pub after_template : String → Fetched ObjectRef → Outcome
  unfolding after_clone
  after_template name missing = template_missing tcp
  after_template name (unreadable e) =
      stop "InfrastructureTemplateCloningFailed" "Failed to retrieve infrastructure template" e []
        tcp
  after_template name (found template) = after_clone template name (env.clone template name)

  unfoldable pub after_name : Result String → Outcome
  unfolding after_template
  after_name (err e) = stop "MachineGenerationFailed" "Failed to generate machine name" e [] tcp
  after_name (ok name) = after_template name (env.template tcp.template.infrastructure_ref)

  unfoldable pub boot_control_plane : Outcome
  unfolding after_name
  boot_control_plane = after_name env.machine_name

-- What initializeControlPlane and scaleUpControlPlane do about an error of the creation: an event.
unfoldable pub report_failure : String → String → Outcome → Outcome
report_failure reason text o = elim o.error [
  | none ↦ o
  | some e ↦ record o { effects = o.effects ++ event reason (Message.both (say text) e) ∷ [] }
]

unfoldable pub initialize_control_plane :
    Library
    → LabelRules
    → (List FailureDomain → List Machine → List Machine → String)
    → Env
    → String
    → ControlPlane
    → ControlPlaneObject
    → Outcome
unfolding boot_control_plane report_failure
initialize_control_plane lib rules pick_fewest env cluster_name cp tcp =
    report_failure "FailedInitialization" "Failed to create initial control plane Machine"
      (boot_control_plane lib rules pick_fewest env cluster_name cp tcp)
