-- ===== src/Rollout.antt =====
-- controllers/controlplane.go: which machines are out of date, where a new one is placed, and the
-- UpToDate condition. The object that the Go struct points to is passed beside it.
pub mod Equality
pub mod Laws
mod Placement
mod Tests
use cluster_api_control_plan.Base.{
  Bool, true, false, ◌&&◌, ◌||◌, not, Option, none, some, List, [], ◌∷◌, String, any, filter,
  if◌then◌else◌, str_eq, lookup, insert, Map, Message, Error, Result, ok, err, wrap, aggregate,
}
use cluster_api_control_plan.Objects.{
  Machine, ControlPlaneObject, Library, StrategyType, on_delete, RolloutStrategy, TalosConfigSpec,
  ObjectRef, is_deleting, same_name, holds, fails, set_condition, Status,
}
use cluster_api_control_plan.Scale.{FailureDomain, failure_domains}
use cluster_api_control_plan.Rollout.Equality.{deep_equal}

-- An infrastructure machine; its spec is not looked into.
pub record InfraObject : Type 0 where
  pub name : String
  pub annotations : Map String
  pub spec : String

pub record TalosConfig : Type 0 where
  pub name : String
  pub spec : TalosConfigSpec

-- ControlPlane, with the failure domains of its cluster.
pub record ControlPlane : Type 0 where
  pub domains : List FailureDomain
  pub machines : List Machine
  pub infra_objects : Map InfraObject
  pub talos_configs : Map TalosConfig

-- What reading an object answers.
pub data Fetched (A : Type 0) : Type 0 where
  found : A → Fetched A
  missing : Fetched A
  unreadable : Error → Fetched A

abbrev add_fetched : {A : Type 0} → String → String → Fetched A → Result (Map A) → Result (Map A)
add_fetched text name (unreadable e) rest = err (wrap text name e)
add_fetched text name missing rest = rest
add_fetched text name (found a) (ok rest) = ok ((name, a) ∷ rest)
add_fetched text name (found a) (err e) = err e

-- The first object that cannot be read is the error; one that does not exist is left out.
unfoldable pub get_infra_resources :
    (ObjectRef → Fetched InfraObject) → List Machine → Result (Map InfraObject)
get_infra_resources read [] = ok []
get_infra_resources read (m ∷ ms) =
    add_fetched "failed to retrieve infra obj for machine" m.name (read m.infrastructure_ref)
      (get_infra_resources read ms)

abbrev read_config : (String → Fetched TalosConfig) → Option String → Fetched TalosConfig
read_config read none = missing
read_config read (some name) = read name

unfoldable pub get_talos_configs :
    (String → Fetched TalosConfig) → List Machine → Result (Map TalosConfig)
get_talos_configs read [] = ok []
get_talos_configs read (m ∷ ms) =
    add_fetched "failed to retrieve talosconfig obj for machine" m.name
      (read_config read m.config_ref) (get_talos_configs read ms)

-- newControlPlane
unfoldable pub new_control_plane :
    (ObjectRef → Fetched InfraObject)
    → (String → Fetched TalosConfig)
    → List FailureDomain
    → List Machine
    → Result ControlPlane
unfolding get_infra_resources get_talos_configs
new_control_plane read_infra read_talos domains machines =
    elim (get_infra_resources read_infra machines) [
      | err e ↦ err e
      | ok infra ↦ elim (get_talos_configs read_talos machines) [
        | err e ↦ err e
        | ok configs ↦ ok (record {
          domains = domains;
          machines = machines;
          infra_objects = infra;
          talos_configs = configs;
        })
      ]
    ]

abbrev is_text : String → Option String → Bool
is_text s none = false
is_text s (some t) = str_eq t s

-- Both annotations name the template, or one of them is missing.
abbrev pub cloned_from : String → String → Option String → Option String → Bool
cloned_from name group_kind (some n) (some g) = str_eq n name && str_eq g group_kind
cloned_from name group_kind _ _ = true

module _ (lib : Library) (tcp : ControlPlaneObject) where
  unfoldable pub matches_template_cloned_from : Map InfraObject → Machine → Bool
  matches_template_cloned_from infra m = elim (lookup m.name infra) [
    | none ↦ true
    | some obj ↦
        cloned_from tcp.template.infrastructure_ref.name
          (lib.group_kind tcp.template.infrastructure_ref)
          (lookup lib.cloned_from_name obj.annotations)
          (lookup lib.cloned_from_group_kind obj.annotations)
  ]

  unfoldable pub matches_control_plane_config : Map TalosConfig → Machine → Bool
  unfolding deep_equal
  matches_control_plane_config configs m = elim (lookup m.name configs) [
    | none ↦ true
    | some config ↦ deep_equal tcp.config config.spec
  ]

  unfoldable pub matches_spec : ControlPlane → Machine → Bool
  unfolding matches_template_cloned_from matches_control_plane_config
  matches_spec cp m =
      lib.matches_kubernetes_version tcp.version m
      && matches_template_cloned_from cp.infra_objects m
      && matches_control_plane_config cp.talos_configs m

  unfoldable pub machines_with_outdated_rollout_spec : ControlPlane → List Machine
  machines_with_outdated_rollout_spec cp =
      filter (λ m. not (matches_spec cp m)) (filter (λ m. not (is_deleting m)) cp.machines)

  abbrev pub is_on_delete : Option RolloutStrategy → Bool
  is_on_delete none = false
  is_on_delete (some s) = is_type s.kind
    where
      is_type : StrategyType → Bool
      is_type on_delete = true
      is_type _ = false

  unfoldable pub machines_needing_rollout : ControlPlane → List Machine
  unfolding machines_with_outdated_rollout_spec
  machines_needing_rollout cp =
      if is_on_delete tcp.strategy then [] else machines_with_outdated_rollout_spec cp

  -- The machines that are not among those to roll out, by name.
  unfoldable pub up_to_date_machines : ControlPlane → List Machine
  up_to_date_machines cp =
      filter (λ m. not (any (λ x. same_name x m) (machines_needing_rollout cp))) cp.machines

  -- NextFailureDomainForScaleUp. `pick_fewest` is failuredomains.PickFewest of Cluster API.
  unfoldable pub next_failure_domain_for_scale_up :
      (List FailureDomain → List Machine → List Machine → String) → ControlPlane → String
  next_failure_domain_for_scale_up pick_fewest cp = elim (failure_domains cp.domains) [
    | [] ↦ ""
    | d ∷ ds ↦
        pick_fewest (d ∷ ds) cp.machines
          (filter (λ m. not (is_deleting m)) (up_to_date_machines cp))
  ]

  abbrev pub up_to_date_condition : String
  up_to_date_condition = "UpToDate"

  abbrev pub with_up_to_date : Bool → Machine → Machine
  with_up_to_date true m = record m {
    conditions =
        set_condition up_to_date_condition holds "UpToDate" (Message.about "" "") m.conditions;
  }
  with_up_to_date false m = record m {
    conditions =
        set_condition up_to_date_condition fails "NotUpToDate" (Message.about "" "") m.conditions;
  }

  -- One turn of reconcileMachineUpToDateConditions: the machine and its error. `helper` and `patch`
  -- are the patch helper's answers.
  unfoldable pub set_up_to_date :
      (Machine → Option Error)
      → (Machine → Option Error)
      → ControlPlane
      → Machine
      → Machine × Option Error
  set_up_to_date helper patch cp m =
      let outdated = any (λ x. same_name x m) (machines_with_outdated_rollout_spec cp) in
      let m' = with_up_to_date (not outdated) m in
      if is_deleting m then (m, none) else elim (helper m) [
        | some e ↦ (m, some (wrap "failed to create patch helper for machine" m.name e))
        | none ↦ elim (patch m') [
          | none ↦ (m', none)
          | some e ↦ (m', some (wrap "failed to patch machine" m.name e))
        ]
      ]

  unfoldable pub reconcile_machine_up_to_date_conditions :
      (Machine → Option Error)
      → (Machine → Option Error)
      → ControlPlane
      → List Machine
      → List Machine × Option Error
  unfolding set_up_to_date
  reconcile_machine_up_to_date_conditions helper patch cp [] = ([], none)
  reconcile_machine_up_to_date_conditions helper patch cp (m ∷ ms) =
      let (m', e) = set_up_to_date helper patch cp m in
      let (ms', es) = reconcile_machine_up_to_date_conditions helper patch cp ms in
      (m' ∷ ms', aggregate e es)
