-- ===== src/Boot/Laws.antt =====
-- What the creation of a machine asks for, and how it ends.
use cluster_api_control_plan.Base.{
  ◌*◌, ◌≡◌, ◌≢◌, ◌⊎◌, inl, inr, true, false, Option, none, some, List, [], ◌∷◌, String, refl, ap,
  sym, subst, lookup, insert, lookup-insert, lookup-insert_self, lookup-erase_self, ◌∙◌, Message,
  Error, Result, ok, err, Option-cases, Bool-cases,
}
use cluster_api_control_plan.Objects.{
  Machine, ControlPlaneObject, Library, ObjectRef, plain, second, condition_fails, set_condition,
  fails, status_is, is_fails, remediation_in_progress_annotation, remediation_for_annotation,
}
use cluster_api_control_plan.PreTerminate.Hook.{pre_terminate_hook, desired_machine_annotations}
use cluster_api_control_plan.Remediation.Progress.{
  remediation_in_progress, drop_in_progress, clear_remediation_in_progress,
}
use cluster_api_control_plan.Scale.{FailureDomain}
use cluster_api_control_plan.Rollout.{
  ControlPlane, Fetched, found, missing, unreadable, next_failure_domain_for_scale_up,
}
use cluster_api_control_plan.Boot.Labels.{control_plane_machine_labels_for_cluster, LabelRules}
use cluster_api_control_plan.Boot.{
  Env, Effect, clones, creates_config, creates_machine, Outcome, machines_created, new_machine,
  after_create, after_config, after_clone, after_template, after_name, boot_control_plane,
}

-- The new machine has the hook, and the remediation that it completes.
annotations-hook :
    (tcp : ControlPlaneObject)
    → lookup pre_terminate_hook (desired_machine_annotations tcp) ≡ some (plain "")
unfolding desired_machine_annotations
annotations-hook tcp =
    elim (Option-cases (lookup remediation_in_progress_annotation tcp.annotations)) [
      | inl e ↦
          rw (e, desired_machine_annotations)
            (lookup-insert_self pre_terminate_hook (plain "") tcp.template_annotations)
      | inr (v, e) ↦
          rw (e, desired_machine_annotations)
            (lookup-insert remediation_for_annotation pre_terminate_hook v
                (insert pre_terminate_hook (plain "") tcp.template_annotations)
              ∙ lookup-insert_self pre_terminate_hook (plain "") tcp.template_annotations)
    ]

annotations-remediation :
    (tcp : ControlPlaneObject)
    → lookup remediation_in_progress_annotation tcp.annotations ≢ none
    → lookup remediation_for_annotation (desired_machine_annotations tcp)
      ≡ lookup remediation_in_progress_annotation tcp.annotations
unfolding desired_machine_annotations
annotations-remediation tcp h =
    elim (Option-cases (lookup remediation_in_progress_annotation tcp.annotations)) [
      | inl e ↦ absurd (h e)
      | inr (v, e) ↦
          rw (e, desired_machine_annotations)
            (lookup-insert_self remediation_for_annotation v
              (insert pre_terminate_hook (plain "") tcp.template_annotations))
    ]

dropped : (tcp : ControlPlaneObject) → remediation_in_progress (drop_in_progress tcp) ≡ false
unfolding remediation_in_progress drop_in_progress
dropped tcp = rw (lookup-erase_self remediation_in_progress_annotation tcp.annotations)

module _ (lib : Library) (rules : LabelRules)
    (pick_fewest : List FailureDomain → List Machine → List Machine → String) (env : Env)
    (cluster_name : String) (cp : ControlPlane) (tcp : ControlPlaneObject) where
  abbrev pub booted : Outcome
  booted = boot_control_plane lib rules pick_fewest env cluster_name cp tcp

  -- A machine as the control plane asks for it, after its infrastructure and its configuration.
  pub record IsNew (m : Machine) (effects : List Effect) : Type 0 where
    pub template : ObjectRef
    pub named : env.machine_name ≡ ok m.name
    pub from_template : env.template tcp.template.infrastructure_ref ≡ found template
    pub cloned : env.clone template m.name ≡ ok m.infrastructure_ref
    pub configured : m.config_ref ≡ some m.name
    pub order :
        effects ≡ clones template m.name ∷ creates_config m.name tcp.config ∷ creates_machine m ∷ []
    pub versioned : m.version ≡ tcp.version
    pub hooked : lookup pre_terminate_hook m.annotations ≡ some (plain "")
    pub recorded :
        lookup remediation_in_progress_annotation tcp.annotations ≢ none
        → lookup remediation_for_annotation m.annotations
          ≡ lookup remediation_in_progress_annotation tcp.annotations
    pub labelled : m.labels ≡ control_plane_machine_labels_for_cluster lib rules tcp cluster_name
    pub placed : m.failure_domain ≡ next_failure_domain_for_scale_up lib tcp pick_fewest cp

  -- A failure before the machine exists leaves the annotations, and the condition says so; a template
  -- that is missing is no error, and is looked for again.
  pub record IsFailed (o : Outcome) : Type 0 where
    pub kept : o.tcp.annotations ≡ tcp.annotations
    pub noted : condition_fails machines_created o.tcp.conditions ≡ true
    pub told : (o.error ≢ none) ⊎ ((o.requeue_after ≡ 30 * second) × (o.effects ≡ []))

  -- A machine was created; unless the patch of the control plane fails, it is remediating no more.
  pub record IsCreated (o : Outcome) : Type 0 where
    pub machine : Machine
    pub new : IsNew machine o.effects
    pub accepted : env.create_machine machine ≡ none
    pub ended :
        ((o.error ≡ none) × (remediation_in_progress o.tcp ≡ false))
        ⊎ ((o.error ≢ none) × (o.tcp ≡ tcp) × (remediation_in_progress tcp ≡ true))

  clear_ends :
      ((clear_remediation_in_progress env.patch_control_plane tcp).1 ≡ none)
        × (remediation_in_progress (clear_remediation_in_progress env.patch_control_plane tcp).0
            ≡ false)
      ⊎ ((clear_remediation_in_progress env.patch_control_plane tcp).1 ≢ none)
        × ((clear_remediation_in_progress env.patch_control_plane tcp).0 ≡ tcp)
        × (remediation_in_progress tcp ≡ true)
  unfolding clear_remediation_in_progress
  clear_ends = elim (Bool-cases (remediation_in_progress tcp)) [
    | inl t ↦ elim (Option-cases env.patch_control_plane) [
      | inl e ↦ inl (rw (t, e) refl, rw (t, e) (dropped tcp))
      | inr (x, e) ↦ inr (rw (t, e) (λ h. cc), rw (t, e) refl, t)
    ]
    | inr f ↦ inl (rw f refl, rw (f, f) refl)
  ]

  pub new_machine-IsNew :
      (name : String) (template infra_ref : ObjectRef)
      → env.machine_name ≡ ok name
      → env.template tcp.template.infrastructure_ref ≡ found template
      → env.clone template name ≡ ok infra_ref
      → IsNew (new_machine lib rules pick_fewest env cluster_name cp tcp name infra_ref) (
          clones template name
          ∷ creates_config name tcp.config
          ∷ creates_machine
              (new_machine lib rules pick_fewest env cluster_name cp tcp name infra_ref)
          ∷ [])
  unfolding new_machine
  new_machine-IsNew name template infra_ref n t c = record {
    template = template;
    named = n;
    from_template = t;
    cloned = c;
    configured = refl;
    order = refl;
    versioned = refl;
    hooked = annotations-hook tcp;
    recorded = annotations-remediation tcp;
    labelled = refl;
    placed = refl;
  }

  abbrev pub Ends : Outcome → Type 0
  Ends o = IsCreated o ⊎ IsFailed o

  noted :
      (reason : String) (message : Message) (o : Outcome)
      → o.tcp ≡ record tcp {
        conditions = set_condition machines_created fails reason message tcp.conditions;
      }
      → (o.error ≢ none) ⊎ ((o.requeue_after ≡ 30 * second) × (o.effects ≡ []))
      → IsFailed o
  noted reason message o e told = record {
    kept = ap (λ (t : ControlPlaneObject). t.annotations) e;
    noted =
        subst (λ (t : ControlPlaneObject). condition_fails machines_created t.conditions ≡ true)
          (sym e) (ap (status_is is_fails) (lookup-insert_self machines_created _ tcp.conditions));
    told = told;
  }

  after_create-Ends :
      (m : Machine) (effects : List Effect) (a : Option Error)
      → IsNew m effects
      → env.create_machine m ≡ a
      → Ends (after_create lib rules pick_fewest env cluster_name cp tcp effects a)
  unfolding after_create
  after_create-Ends m effects (some e) new p = inr (noted _ _ _ refl (inl (λ h. cc)))
  after_create-Ends m effects none new p =
      inl (record { machine = m; new = new; accepted = p; ended = clear_ends })

  after_config-Ends :
      (template : ObjectRef) (name : String) (infra_ref : ObjectRef) (a : Option Error)
      → env.machine_name ≡ ok name
      → env.template tcp.template.infrastructure_ref ≡ found template
      → env.clone template name ≡ ok infra_ref
      → Ends (after_config lib rules pick_fewest env cluster_name cp tcp template name infra_ref a)
  unfolding after_config
  after_config-Ends template name infra_ref (some e) n t c = inr (noted _ _ _ refl (inl (λ h. cc)))
  after_config-Ends template name infra_ref none n t c =
      after_create-Ends (new_machine lib rules pick_fewest env cluster_name cp tcp name infra_ref) _
        _ (new_machine-IsNew name template infra_ref n t c) refl

  after_clone-Ends :
      (template : ObjectRef) (name : String) (r : Result ObjectRef)
      → env.machine_name ≡ ok name
      → env.template tcp.template.infrastructure_ref ≡ found template
      → env.clone template name ≡ r
      → Ends (after_clone lib rules pick_fewest env cluster_name cp tcp template name r)
  unfolding after_clone
  after_clone-Ends template name (err e) n t c = inr (noted _ _ _ refl (inl (λ h. cc)))
  after_clone-Ends template name (ok infra_ref) n t c =
      after_config-Ends template name infra_ref (env.create_config name) n t c

  after_template-Ends :
      (name : String) (f : Fetched ObjectRef)
      → env.machine_name ≡ ok name
      → env.template tcp.template.infrastructure_ref ≡ f
      → Ends (after_template lib rules pick_fewest env cluster_name cp tcp name f)
  unfolding after_template
  after_template-Ends name missing n t = inr (noted _ _ _ refl (inr (refl, refl)))
  after_template-Ends name (unreadable e) n t = inr (noted _ _ _ refl (inl (λ h. cc)))
  after_template-Ends name (found template) n t =
      after_clone-Ends template name (env.clone template name) n t refl

  after_name-Ends :
      (r : Result String)
      → env.machine_name ≡ r
      → Ends (after_name lib rules pick_fewest env cluster_name cp tcp r)
  unfolding after_name
  after_name-Ends (err e) n = inr (noted _ _ _ refl (inl (λ h. cc)))
  after_name-Ends (ok name) n =
      after_template-Ends name (env.template tcp.template.infrastructure_ref) n refl

  -- The creation of a machine either asks for the infrastructure, the configuration and the machine,
  -- all of one name, in this order, is granted the machine, which has the version, the labels, the
  -- failure domain and the hook that it should and records a remediation in progress, and ends that
  -- remediation unless the patch of the control plane fails; or it leaves the annotations, sets
  -- MachinesCreated to false, and returns an error, or looks again later for a template that is missing
  -- having asked for nothing.
  pub boot_control_plane-Ends : Ends booted
  unfolding boot_control_plane
  boot_control_plane-Ends = after_name-Ends env.machine_name refl
