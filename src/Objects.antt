-- ===== src/Objects.antt =====
-- The API objects that the controllers read and write, as far as the modelled code looks at them:
-- api/v1beta1/taloscontrolplane_types.go, and the Machine and Cluster of Cluster API.
-- Times are nanoseconds since an epoch. A field that Go leaves nil or zero is `none`.
use cluster_api_control_plan.Base.{
  ℤ, ℕ, ◌-◌, ◌%◌, Bool, true, false, Option, none, some, List, String, Message, Map, lookup, insert,
  str_eq, is_some,
}

abbrev pub second : ℕ
second = 1000000000

-- What a JSON or RFC3339 text keeps of a time: whole seconds.
unfoldable pub whole_seconds : ℕ → ℕ
whole_seconds t = t - t % second

pub data Status : Type 0 where
  holds fails unknown : Status

pub record Condition : Type 0 where
  pub status : Status
  pub reason : String
  pub message : Message

-- remediationData, which two annotations carry as JSON.
pub record RemediationData : Type 0 where
  pub machine : String
  pub timestamp : ℕ
  pub retry_count : ℕ

-- An annotation's value, up to what the code reads from it: a text that unmarshals to remediation
-- data, one that parses as an RFC3339 time, or any other.
pub data Value : Type 0 where
  remediation : RemediationData → Value
  time : ℕ → Value
  plain : String → Value

abbrev pub Annotations : Type 0
Annotations = Map Value

pub data AddressType : Type 0 where
  host_name internal_ip external_ip other_type : AddressType

pub record Address : Type 0 where
  pub kind : AddressType
  pub address : String

-- A ContractVersionedObjectReference of Cluster API.
pub record ObjectRef : Type 0 where
  pub api_group : String
  pub kind : String
  pub name : String

pub record ReadinessGate : Type 0 where
  pub condition_type : String
  pub polarity : String

-- The timeouts of a machine's deletion, in seconds.
pub record DeletionSpec : Type 0 where
  pub node_drain : Option ℕ
  pub node_volume_detach : Option ℕ
  pub node_deletion : Option ℕ

-- A Machine: its metadata, its spec, and its status. `config_ref` is the name in
-- `spec.bootstrap.configRef`, and `node_ref` the one in `status.nodeRef`, where these are defined.
pub record Machine : Type 0 where
  pub name : String
  pub created : ℕ
  pub deletion : Option ℕ
  pub labels : Map String
  pub annotations : Annotations
  pub version : String
  pub infrastructure_ref : ObjectRef
  pub config_ref : Option String
  pub readiness_gates : List ReadinessGate
  pub deletion_spec : DeletionSpec
  pub failure_domain : String
  pub node_ref : Option String
  pub addresses : List Address
  pub conditions : Map Condition

abbrev pub is_deleting : Machine → Bool
is_deleting m = is_some m.deletion

-- `m.Status.NodeRef.IsDefined()`
abbrev pub has_node : Machine → Bool
has_node m = is_some m.node_ref

abbrev pub same_name : Machine → Machine → Bool
same_name a b = str_eq a.name b.name

pub record RemediationSpec : Type 0 where
  pub max_retry : Option ℕ
  pub retry_period_seconds : Option ℕ
  pub min_healthy_period_seconds : Option ℕ

-- The type of a rollout strategy; Go's empty text is `unset`.
pub data StrategyType : Type 0 where
  unset rolling on_delete other_strategy : StrategyType

-- `max_surge` is what `IntValue` reads from the field: a text that is no number counts as 0.
pub record RollingUpdate : Type 0 where
  pub max_surge : Option ℤ

pub record RolloutStrategy : Type 0 where
  pub kind : StrategyType
  pub rolling_update : Option RollingUpdate

-- A TalosConfigSpec of the bootstrap provider. Texts stand for what is not looked into, and a slice
-- that Go leaves nil is none.
pub record TalosConfigSpec : Type 0 where
  pub talos_version : String
  pub generate_type : String
  pub config : String
  pub config_patches : Option (List (String × String × String))
  pub strategic_patches : Option (List String)
  pub hostname_source : String
  pub image_factory : Option String

-- spec.machineTemplate, but for its annotations.
pub record MachineTemplate : Type 0 where
  pub labels : Map String
  pub infrastructure_ref : ObjectRef
  pub readiness_gates : List ReadinessGate
  pub deletion_spec : DeletionSpec

-- The counters of the status.
pub record Counters : Type 0 where
  pub replicas : ℕ
  pub ready : ℕ
  pub available : ℕ
  pub up_to_date : ℕ

-- A TalosControlPlane. `replicas` is what GetReplicas reads from the int32 of the specification,
-- `lowest_version` is status.version, and `initialized` is
-- status.initialization.controlPlaneInitialized.
pub record ControlPlaneObject : Type 0 where
  pub name : String
  pub deletion : Option ℕ
  pub finalizers : List String
  pub annotations : Annotations
  pub replicas : ℤ
  pub version : String
  pub remediation : RemediationSpec
  pub strategy : Option RolloutStrategy
  pub template_annotations : Annotations
  pub template : MachineTemplate
  pub config : TalosConfigSpec
  pub selector : String
  pub lowest_version : Option String
  pub last_remediation : Option RemediationData
  pub counters : Counters
  pub initialized : Option Bool
  pub bootstrapped : Bool
  pub bootstrapped_machine : String
  pub conditions : Map Condition

-- A Cluster; `topology_version` is none where spec.topology is not defined.
pub record Cluster : Type 0 where
  pub name : String
  pub deletion : Option ℕ
  pub topology_version : Option String
  pub upgrade_step : Option String

-- A member of etcd's member list.
pub record Member : Type 0 where
  pub id : ℕ
  pub hostname : String
  pub is_learner : Bool

-- The predicates of Cluster API and apimachinery that the code calls: collections.IsUnhealthy,
-- collections.IsUnhealthyAndOwnerRemediated, annotations.HasRemediateMachine and
-- metav1.IsControlledBy, collections.MatchesKubernetesVersion; GroupKind.String of apimachinery and
-- the labels and annotations of a machine; and the names of the annotations and of the hook that it declares:
-- UpdateInProgressAnnotation, PendingHooksAnnotation, DeleteMachineAnnotation and UpdateMachine.
pub record Library : Type 0 where
  pub is_unhealthy : Machine → Bool
  pub is_unhealthy_and_owner_remediated : Machine → Bool
  pub has_remediate_machine : Machine → Bool
  pub is_controlled_by : Machine → ControlPlaneObject → Bool
  pub matches_kubernetes_version : String → Machine → Bool
  pub group_kind : ObjectRef → String
  pub cluster_label : String
  pub control_plane_label : String
  pub control_plane_name_label : String
  pub cloned_from_name : String
  pub cloned_from_group_kind : String
  pub update_in_progress : String
  pub pending_hooks : String
  pub delete_machine : String
  pub update_machine : String

-- conditions.Set and conditions.IsTrue of Cluster API: an object has one condition of a type.
abbrev pub set_condition : String → Status → String → Message → Map Condition → Map Condition
set_condition kind status reason message =
    insert kind (record { status = status; reason = reason; message = message })

abbrev pub is_holds : Status → Bool
is_holds holds = true
is_holds _ = false

abbrev pub is_fails : Status → Bool
is_fails fails = true
is_fails _ = false

abbrev pub status_is : (Status → Bool) → Option Condition → Bool
status_is p none = false
status_is p (some c) = p c.status

abbrev pub condition_holds : String → Map Condition → Bool
condition_holds kind cs = status_is is_holds (lookup kind cs)

abbrev pub condition_fails : String → Map Condition → Bool
condition_fails kind cs = status_is is_fails (lookup kind cs)

abbrev pub value_is : String → Option Value → Bool
value_is s (some (plain t)) = str_eq t s
value_is s _ = false

-- The annotations of this provider.
abbrev pub etcd_leaving : String
etcd_leaving = "controlplane.cluster.x-k8s.io/etcd-leaving"

abbrev pub remediation_in_progress_annotation : String
remediation_in_progress_annotation = "controlplane.cluster.x-k8s.io/remediation-in-progress"

abbrev pub remediation_for_annotation : String
remediation_for_annotation = "controlplane.cluster.x-k8s.io/remediation-for"

-- `machine.Annotations[etcdLeavingAnnotation] == "true"`
abbrev pub is_leaving : Machine → Bool
is_leaving m = value_is "true" (lookup etcd_leaving m.annotations)
