-- ===== src/Boot/Once.antt =====
-- A creation asks for one machine at most.
use cluster_api_control_plan.Base.{
  ◌≤◌, ◌≡◌, inl, inr, Bool, true, false, Option, none, some, List, [], ◌∷◌, String, count,
  count-append, arith, refl, Error, Message, Result, ok, err, Option-cases,
}
use cluster_api_control_plan.Objects.{Machine, ControlPlaneObject, Library, ObjectRef}
use cluster_api_control_plan.Scale.{FailureDomain}
use cluster_api_control_plan.Rollout.{ControlPlane, Fetched, found, missing, unreadable}
use cluster_api_control_plan.Boot
use cluster_api_control_plan.Boot.{
  creates_machine, report_failure, boot_control_plane, after_create, after_config, after_clone,
  after_template, after_name, asked, LabelRules,
}

abbrev pub is_creation : Boot.Effect → Bool
is_creation (creates_machine _) = true
is_creation _ = false

module _ (lib : Library) (rules : LabelRules)
    (pick_fewest : List FailureDomain → List Machine → List Machine → String) (env : Boot.Env)
    (cluster_name : String) (cp : ControlPlane) (tcp : ControlPlaneObject) where
  after_create-once :
      (effects : List Boot.Effect) (a : Option Error)
      → (after_create lib rules pick_fewest env cluster_name cp tcp effects a).effects ≡ effects
  unfolding after_create
  after_create-once effects none = refl
  after_create-once effects (some e) = refl

  after_config-once :
      (template : ObjectRef) (name : String) (infra_ref : ObjectRef) (a : Option Error)
      → count is_creation
          (after_config lib rules pick_fewest env cluster_name cp tcp template name infra_ref
            a).effects
        ≤ 1
  unfolding after_config
  after_config-once template name infra_ref (some e) = omega arith
  after_config-once template name infra_ref none = rw after_create-once (omega arith)

  after_clone-once :
      (template : ObjectRef) (name : String) (r : Result ObjectRef)
      → count is_creation
          (after_clone lib rules pick_fewest env cluster_name cp tcp template name r).effects
        ≤ 1
  unfolding after_clone
  after_clone-once template name (err e) = omega arith
  after_clone-once template name (ok r) = after_config-once template name r (env.create_config name)

  after_template-once :
      (name : String) (f : Fetched ObjectRef)
      → count is_creation
          (after_template lib rules pick_fewest env cluster_name cp tcp name f).effects
        ≤ 1
  unfolding after_template
  after_template-once name missing = omega arith
  after_template-once name (unreadable e) = omega arith
  after_template-once name (found t) = after_clone-once t name (env.clone t name)

  after_name-once :
      (r : Result String)
      → count is_creation (after_name lib rules pick_fewest env cluster_name cp tcp r).effects ≤ 1
  unfolding after_name
  after_name-once (err e) = omega arith
  after_name-once (ok name) =
      after_template-once name (env.template tcp.template.infrastructure_ref)

  pub boot_control_plane-once :
      count is_creation (boot_control_plane lib rules pick_fewest env cluster_name cp tcp).effects
      ≤ 1
  unfolding boot_control_plane
  boot_control_plane-once = after_name-once env.machine_name

pub report_failure-once :
    (reason text : String) (o : Boot.Outcome)
    → count is_creation (report_failure reason text o).effects ≡ count is_creation o.effects
unfolding report_failure
report_failure-once reason text o = elim (Option-cases o.error) [
  | inl e ↦ rw (e, report_failure) refl
  | inr (x, e) ↦
      rw (e, report_failure)
        (omega (
          arith,
          count-append is_creation o.effects
              (Boot.event reason (Message.both (Message.about text "") x) ∷ []),
        ))
]
