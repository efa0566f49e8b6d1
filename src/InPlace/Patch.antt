-- ===== src/InPlace/Patch.antt =====
-- controllers/inplace.go: whether the patches that an extension answers with make up the whole
-- change of a machine.
pub mod Laws
mod Tests
use cluster_api_control_plan.Base.{
  ℕ, Bool, true, false, ◌&&◌, Option, none, some, List, [], ◌∷◌, String, str_eq, length, Message,
  Error, Result, ok, err, say, counts, lookup, Map,
}
use cluster_api_control_plan.Objects.{Machine, ControlPlaneObject}
use cluster_api_control_plan.Rollout.{ControlPlane, InfraObject, TalosConfig}

-- inPlacePlan
pub record Plan : Type 0 where
  pub machine : Machine
  pub desired_machine : Machine
  pub desired_infra_machine : Option InfraObject
  pub desired_talos_config : TalosConfig

pub data PatchType : Type 0 where
  json_merge_patch json_patch other_patch : PatchType

pub record Patch : Type 0 where
  pub kind : PatchType
  pub text : String

-- The objects of one side of a request, as JSON; an object that is missing is an empty text.
pub record RequestObjects : Type 0 where
  pub machine : Machine
  pub infrastructure_machine : String
  pub bootstrap_config : String

-- CanUpdateMachineResponse: `failure` is its message where its status is a failure, and a patch that
-- is not defined is none.
pub record Response : Type 0 where
  pub failure : Option String
  pub machine_patch : Option Patch
  pub infrastructure_patch : Option Patch
  pub bootstrap_patch : Option Patch

-- The encoders of JSON, the two kinds of patch, and what Unmarshal makes of a text, written in one
-- way: two values are deeply equal where these texts are. An object that cannot be encoded is empty.
pub record Json : Type 0 where
  pub encode_machine : Machine → Result String
  pub encode_infra : InfraObject → String
  pub encode_config : TalosConfig → String
  pub merge_patch : String → String → Result String
  pub decode_patch : String → Result String
  pub apply_patch : String → String → Result String
  pub unmarshal : String → Result String

-- The runtime client.
pub record Extensions : Type 0 where
  pub all : Machine → Result (List String)
  pub call : String → RequestObjects → RequestObjects → Result Response

-- cleanMachine: the metadata and the spec.
unfoldable pub clean_machine : Machine → Machine
clean_machine m = record m {
  created = 0;
  deletion = none;
  node_ref = none;
  addresses = [];
  conditions = [];
}

infixl 5 ◌>>=◌
abbrev pub ◌>>=◌ : {A B : Type 0} → Result A → (A → Result B) → Result B
ok a >>= f = f a
err e >>= f = err e

module _ (json : Json) where
  -- rawFrom keeps the identity and the spec of an object.
  unfoldable pub raw_infra : Option InfraObject → String
  raw_infra none = ""
  raw_infra (some obj) = json.encode_infra (record obj { annotations = [] })

  unfoldable pub raw_config : Option TalosConfig → String
  raw_config none = ""
  raw_config (some config) = json.encode_config config

  unfoldable pub patched_by : String → Option Patch → Result String
  patched_by current none = ok current
  patched_by current (some p) = elim p.kind [
    | json_merge_patch ↦ json.merge_patch current p.text
    | json_patch ↦ json.decode_patch p.text >>= λ decoded. json.apply_patch current decoded
    | other_patch ↦ err (say "unsupported patch type")
  ]

  unfoldable pub json_reaches : String → String → Option Patch → Result Bool
  unfolding patched_by
  json_reaches current desired patch = do
    patched ← patched_by current patch
    got ← json.unmarshal patched
    want ← json.unmarshal desired
    ok (str_eq got want)

  unfoldable pub patch_reaches : Machine → Machine → Option Patch → Result Bool
  unfolding json_reaches
  patch_reaches current desired patch = do
    current_json ← json.encode_machine current
    desired_json ← json.encode_machine desired
    json_reaches current_json desired_json patch

  unfoldable pub patch_reaches_raw : String → String → Option Patch → Result Bool
  unfolding json_reaches
  patch_reaches_raw current desired patch = elim (str_eq current "" && str_eq desired "") [
    | true ↦ ok true
    | false ↦ json_reaches current desired patch
  ]

  -- The request: the objects as they are, and as they should be.
  abbrev pub current_objects : Plan → Option TalosConfig → RequestObjects
  current_objects plan current = record {
    machine = clean_machine plan.machine;
    infrastructure_machine = raw_infra plan.desired_infra_machine;
    bootstrap_config = raw_config current;
  }

  abbrev pub desired_objects : Plan → RequestObjects
  desired_objects plan = record {
    machine = clean_machine plan.desired_machine;
    infrastructure_machine = raw_infra plan.desired_infra_machine;
    bootstrap_config = raw_config (some plan.desired_talos_config);
  }

  abbrev pub refused : Option String → Result (Unit {0})
  refused none = ok tt
  refused (some message) =
      err (Message.both (say "CanUpdateMachine hook failed") (Message.external message))

  -- Whether the answer to a request covers the change.
  unfoldable pub covers : RequestObjects → RequestObjects → Response → Result Bool
  unfolding patch_reaches patch_reaches_raw
  covers current desired r = do
    _ ← refused r.failure
    machine ← patch_reaches current.machine desired.machine r.machine_patch
    bootstrap ←
        patch_reaches_raw current.bootstrap_config desired.bootstrap_config r.bootstrap_patch
    infra ←
        patch_reaches_raw current.infrastructure_machine desired.infrastructure_machine
          r.infrastructure_patch
    ok (machine && bootstrap && infra)

  abbrev pub ask_first : Extensions → Plan → Option TalosConfig → List String → Result Bool
  ask_first extensions plan current [] = ok false
  ask_first extensions plan current (name ∷ []) = do
    r ← extensions.call name (current_objects plan current) (desired_objects plan)
    covers (current_objects plan current) (desired_objects plan) r
  ask_first extensions plan current (x ∷ y ∷ rest) = err (
      counts "found CanUpdateMachine extensions, only one is supported" (length (x ∷ y ∷ rest)) 0 0)

  -- canUpdateMachine
  unfoldable pub can_update_machine : Extensions → Plan → ControlPlane → Result Bool
  unfolding covers
  can_update_machine extensions plan cp = do
    names ← extensions.all plan.machine
    ask_first extensions plan (lookup plan.machine.name cp.talos_configs) names
