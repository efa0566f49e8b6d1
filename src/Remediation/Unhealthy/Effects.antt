-- ===== src/Remediation/Unhealthy/Effects.antt =====
-- What a reconcile of the unhealthy machines does: at most one deletion, recorded before it is made.
use cluster_api_control_plan.Base.{
  ℕ, ◌≡◌, ◌⊎◌, inl, inr, true, Option, none, some, List, [], ◌∷◌, ◌++◌, lookup, arith, refl, sym,
  ap, ◌∙◌, Bool-cases, Option-cases, Error, is_some, subst,
}
use cluster_api_control_plan.Objects.{
  RemediationData, Machine, ControlPlaneObject, Cluster, Library,
  remediation_in_progress_annotation,
}
use cluster_api_control_plan.Quorum.{Statuses}
use cluster_api_control_plan.Remediation.Limits.{Verdict, go, marshal}
use cluster_api_control_plan.Remediation.Progress.{reconcile_remediation_in_progress}
use cluster_api_control_plan.Remediation.Target.{machine_to_be_remediated}
use cluster_api_control_plan.Remediation.Api.{Api, Effect, recorded, deleted, patched}
use cluster_api_control_plan.Remediation.Cleanup.{cleanup_owner_remediated}
use cluster_api_control_plan.Remediation.Checks.{may_remediate}
use cluster_api_control_plan.Remediation.Unhealthy.{
  Outcome, end_with, patch_target, reconcile_target, reconcile_unhealthy_machines,
}
use cluster_api_control_plan.Remediation.Unhealthy.Deletions.{
  cleanup-deletions, end_with_cases, patch_target-deletions, deletions,
}

module _ (lib : Library) (api : Api) (cluster : Option Cluster) (statuses : Statuses) (now : ℕ)
    (tcp : ControlPlaneObject) (machines : List Machine) where
  abbrev outcome : Outcome
  outcome = reconcile_unhealthy_machines lib api cluster statuses now tcp machines

  -- The control plane and the machines that the target is chosen from.
  abbrev current : ControlPlaneObject
  current = reconcile_remediation_in_progress tcp machines now

  abbrev cleaned : List Machine
  cleaned = (cleanup_owner_remediated api machines).0

  -- A deletion of the target that all checks let through, with the remediation recorded first.
  pub record IsDeletionOf (target : Machine) (d : RemediationData) (o : Outcome) : Type 0 where
    pub chosen :
        machine_to_be_remediated lib
          (reconcile_remediation_in_progress tcp machines now)
          (cleanup_owner_remediated api machines).0
          statuses
        ≡ some target
    pub not_deleting : target.deletion ≡ none
    pub checked :
        may_remediate lib api cluster
          (reconcile_remediation_in_progress tcp machines now)
          target
          (cleanup_owner_remediated api machines).0
          statuses
          now
        ≡ go d
    pub only : deletions o.effects ≡ target.name ∷ []
    pub recorded_first :
        (before after : List Effect) × (o.effects
          ≡ before ++ (recorded (marshal d) ∷ deleted target.name ∷ after))
    pub in_progress :
        lookup remediation_in_progress_annotation o.control_plane.annotations ≡ some (marshal d)
    pub acted : o.remediating ≡ true

  -- Nothing was deleted, or the target was.
  abbrev Cases : Machine → Outcome → Type 0
  Cases target o = (deletions o.effects ≡ []) ⊎ ((d : RemediationData) × IsDeletionOf target d o)

  abbrev verdict : Machine → Verdict RemediationData
  verdict target = may_remediate lib api cluster current target cleaned statuses now

  act-Cases :
      (target : Machine) (before : List Effect)
      → machine_to_be_remediated lib current cleaned statuses ≡ some target
      → target.deletion ≡ none
      → deletions before ≡ []
      → Cases target
          (patch_target api cleaned before (end_with api current target (verdict target)))
  unfolding patch_target
  act-Cases target before c s none_yet =
      let e = end_with api current target (verdict target) in
      let same = patch_target-deletions api cleaned before e none_yet in
      elim (end_with_cases api current target (verdict target)) [
        | inl nothing ↦ inl (same ∙ nothing)
        | inr (d, passed, did) ↦ inr (
          d,
          record {
            chosen = c;
            not_deleting = s;
            checked = passed;
            only = same ∙ (ap deletions did.shape ∙ ap (◌∷◌ target.name) did.no_more);
            recorded_first = (
              before,
              did.after ++ patched e.target ∷ [],
              ap (λ xs. before ++ (xs ++ patched e.target ∷ [])) did.shape,
            );
            in_progress = did.in_progress;
            acted = did.acted;
          },
        )
      ]

  abbrev from_target : List Effect → Option Machine → Outcome
  from_target before t = reconcile_target lib api cluster statuses now current cleaned before t

  target_step :
      (target : Machine) (before : List Effect)
      → target.deletion ≡ none
      → api.helper target ≡ none
      → from_target before (some target)
        ≡ patch_target api cleaned before (end_with api current target (verdict target))
  unfolding reconcile_target
  target_step target before s h = simp (s, h)

  target_stop :
      (target : Machine) (before : List Effect)
      → ((t : ℕ) × (target.deletion ≡ some t)) ⊎ ((e : Error) × (api.helper target ≡ some e))
      → (from_target before (some target)).effects ≡ before
  unfolding reconcile_target
  target_stop target before (inl (t, gone)) = ground arith
  target_stop target before (inr (e, failed)) = ground arith

  target_none : (before : List Effect) → (from_target before none).effects ≡ before
  unfolding reconcile_target
  target_none before = refl

  from_target-Cases :
      (target : Machine) (before : List Effect)
      → machine_to_be_remediated lib current cleaned statuses ≡ some target
      → deletions before ≡ []
      → Cases target (from_target before (some target))
  from_target-Cases target before c none_yet = elim (Option-cases target.deletion) [
    | inr (t, gone) ↦ inl (ap deletions (target_stop target before (inl (t, gone))) ∙ none_yet)
    | inl staying ↦ elim (Option-cases (api.helper target)) [
      | inr (e, failed) ↦
          inl (ap deletions (target_stop target before (inr (e, failed))) ∙ none_yet)
      | inl helped ↦
          subst (Cases target) (sym (target_step target before staying helped))
            (act-Cases target before c staying none_yet)
    ]
  ]

  -- A reconcile deletes no machine, or the one machine to be remediated, which no check held back;
  -- then the remediation was recorded on the control plane before the deletion, the annotation holds
  -- it, and the handler says that it acted.
  pub reconcile_unhealthy_machines_cases :
      let o = reconcile_unhealthy_machines lib api cluster statuses now tcp machines in
      (deletions o.effects ≡ [])
      ⊎ ((target : Machine) × (d : RemediationData) × IsDeletionOf target d o)
  unfolding reconcile_unhealthy_machines
  reconcile_unhealthy_machines_cases =
      elim (Bool-cases (is_some (cleanup_owner_remediated api machines).2)) [
        | inl failed ↦ inl (rw failed (cleanup-deletions api machines))
        | inr cleanly ↦
            rw cleanly (choose (machine_to_be_remediated lib current cleaned statuses) refl)
      ]
    where
      choose :
          (t : Option Machine)
          → machine_to_be_remediated lib current cleaned statuses ≡ t
          → let o = from_target (cleanup_owner_remediated api machines).1 t in
            (deletions o.effects ≡ [])
            ⊎ ((target : Machine) × (d : RemediationData) × IsDeletionOf target d o)
      choose none e = inl (ap deletions (target_none _) ∙ cleanup-deletions api machines)
      choose (some target) e =
          elim (from_target-Cases target (cleanup_owner_remediated api machines).1 e
            (cleanup-deletions api machines)) [
              | inl nothing ↦ inl nothing
              | inr (d, did) ↦ inr (target, d, did)
            ]
