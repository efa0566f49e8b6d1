-- ===== src/Webhook.antt =====
-- api/v1beta1/taloscontrolplane_webhook.go: the defaults and the validation of a TalosControlPlane.
pub mod Naming
mod Laws
mod Rollout
mod Tests
use Prim.Native.String
use cluster_api_control_plan.Base.{
  ℕ, ℤ, pos, Bool, true, false, ◌&&◌, ◌||◌, not, Option, none, some, List, [], ◌∷◌, ◌++◌, String,
  codes, codes_eq, str_eq, if◌then◌else◌, ◌==◌, Error, Result, ok, err,
}
use cluster_api_control_plan.Objects.{
  ObjectRef, RemediationSpec, StrategyType, unset, rolling, on_delete, other_strategy,
  RollingUpdate, RolloutStrategy, MachineTemplate, TalosConfigSpec,
}
use cluster_api_control_plan.Remediation.Limits.{
  default_max_retry, default_retry_period_seconds, default_min_healthy_period_seconds,
}
use cluster_api_control_plan.Webhook.Naming.{Execute, render_machine_name, generate_machine_name}

-- TalosControlPlaneSpec. `naming` is the template of machineNamingStrategy.
pub record Spec : Type 0 where
  pub replicas : Option ℤ
  pub version : String
  pub template : MachineTemplate
  pub naming : Option String
  pub config : TalosConfigSpec
  pub strategy : Option RolloutStrategy
  pub remediation : RemediationSpec

abbrev or_default : {A : Type 0} → A → Option A → Option A
or_default d none = some d
or_default d (some a) = some a

unfoldable pub default_remediation : RemediationSpec → RemediationSpec
default_remediation r = record {
  max_retry = or_default default_max_retry r.max_retry;
  retry_period_seconds = or_default default_retry_period_seconds r.retry_period_seconds;
  min_healthy_period_seconds =
      or_default default_min_healthy_period_seconds r.min_healthy_period_seconds;
}

abbrev default_surge : Option RollingUpdate → RollingUpdate
default_surge none = record { max_surge = some (pos 1) }
default_surge (some r) = record { max_surge = or_default (pos 1) r.max_surge }

abbrev default_type : StrategyType → Option RollingUpdate → RolloutStrategy
default_type unset u = record { kind = rolling; rolling_update = some (default_surge u) }
default_type rolling u = record { kind = rolling; rolling_update = some (default_surge u) }
default_type on_delete u = record { kind = on_delete; rolling_update = u }
default_type other_strategy u = record { kind = other_strategy; rolling_update = u }

abbrev default_strategy_of : Option RolloutStrategy → RolloutStrategy
default_strategy_of none = default_type unset none
default_strategy_of (some s) = default_type s.kind s.rolling_update

unfoldable pub default_rollout_strategy : Option RolloutStrategy → Option RolloutStrategy
default_rollout_strategy s = some (default_strategy_of s)

-- `strings.HasPrefix(version, "v")`
abbrev starts_with_v : String → Bool
starts_with_v s = elim (codes s) [ [] ↦ false | c ∷ _ ↦ c == b'v' ]

unfoldable pub default_version : String → String
default_version s = if starts_with_v s then s else String.◌∷◌ "v" s

-- defaultTalosControlPlaneSpec
unfoldable pub default_spec : Spec → Spec
unfolding default_version default_rollout_strategy default_remediation
default_spec s = record s {
  replicas = or_default (pos 1) s.replicas;
  version = default_version s.version;
  strategy = default_rollout_strategy s.strategy;
  remediation = default_remediation s.remediation;
}

-- A field that is refused.
pub data FieldError : Type 0 where
  required forbidden : String → FieldError
  invalid : String → FieldError

abbrev require : String → String → List FieldError
require name value = if str_eq value "" then required name ∷ [] else []

unfoldable pub validate_infrastructure_ref : ObjectRef → List FieldError
validate_infrastructure_ref ref =
    require "name" ref.name ++ (require "kind" ref.kind ++ require "apiGroup" ref.api_group)

abbrev validate_type : StrategyType → List FieldError
validate_type other_strategy = invalid "rolloutStrategy" ∷ []
validate_type _ = []

unfoldable pub validate_rollout_strategy : Option RolloutStrategy → List FieldError
validate_rollout_strategy none = []
validate_rollout_strategy (some s) = validate_type s.kind

-- What validation calls: the template engine, the random text of the example name, the random ends of
-- the three names where they are too long, IsDNS1123Subdomain, and ValidateImageFactory of the
-- bootstrap provider.
pub record Rules : Type 0 where
  pub execute : Execute
  pub random : List ℕ
  pub first_suffix : List ℕ
  pub second_suffix : List ℕ
  pub example_suffix : List ℕ
  pub subdomain_errors : List ℕ → List FieldError
  pub image_factory_errors : Option String → List FieldError

abbrev bad_template : List FieldError
bad_template = invalid "template" ∷ []

module _ (rules : Rules) where
  abbrev rendered : String → List ℕ → String → Result (List ℕ)
  rendered template suffix random =
      render_machine_name rules.execute suffix (some template) "cluster" "talos-control-plane"
        (codes random)

  abbrev check_example : Result (List ℕ) → List FieldError
  check_example (err e) = bad_template
  check_example (ok name) = rules.subdomain_errors name

  abbrev check_renders : Result (List ℕ) → Result (List ℕ) → Result (List ℕ) → List FieldError
  check_renders (err e) b example = bad_template
  check_renders (ok a) (err e) example = bad_template
  check_renders (ok a) (ok b) example = if codes_eq a b then bad_template else check_example example

  -- The template must render, depend on the random text, and give a name that is a subdomain.
  unfoldable pub validate_machine_naming_strategy : Option String → List FieldError
  validate_machine_naming_strategy none = []
  validate_machine_naming_strategy (some template) =
      if str_eq template ""
      then []
      else check_renders (rendered template rules.first_suffix "AAAAA")
          (rendered template rules.second_suffix "BBBBB")
          (generate_machine_name rules.execute rules.random rules.example_suffix (some template)
            "cluster" "talos-control-plane")

  unfoldable pub validate_control_plane_config : TalosConfigSpec → List FieldError
  validate_control_plane_config c = rules.image_factory_errors c.image_factory

  unfoldable pub validate : Spec → List FieldError
  unfolding validate_infrastructure_ref validate_machine_naming_strategy validate_rollout_strategy
      validate_control_plane_config
  validate s =
      validate_infrastructure_ref s.template.infrastructure_ref
      ++ (validate_machine_naming_strategy s.naming
          ++ (validate_rollout_strategy s.strategy ++ validate_control_plane_config s.config))

  -- The provider, that is the group and the kind, cannot change; the name can.
  unfoldable pub validate_infrastructure_ref_immutable : ObjectRef → ObjectRef → List FieldError
  validate_infrastructure_ref_immutable old new =
      (if str_eq old.api_group new.api_group then [] else forbidden "apiGroup" ∷ [])
      ++ (if str_eq old.kind new.kind then [] else forbidden "kind" ∷ [])

  unfoldable pub validate_update : Spec → Spec → List FieldError
  unfolding validate_infrastructure_ref_immutable
  validate_update old new =
      validate_infrastructure_ref_immutable old.template.infrastructure_ref
        new.template.infrastructure_ref
      ++ validate new
