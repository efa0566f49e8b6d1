-- ===== src/Boot/Rolled.antt =====
-- A machine that was just created is not one that a rollout replaces.
use cluster_api_control_plan.Base.{
  differ, ◌≡◌, true, inl, inr, some, List, String, In, arith, sym, lookup,
}
use cluster_api_control_plan.Objects.{Machine, ControlPlaneObject, Library}
use cluster_api_control_plan.Scale.{FailureDomain}
use cluster_api_control_plan.Rollout.{
  ControlPlane, InfraObject, TalosConfig, machines_needing_rollout,
}
use cluster_api_control_plan.Rollout.Laws.{machines_needing_rollout-IsOutdated}
use cluster_api_control_plan.Boot.Labels.{LabelRules}
use cluster_api_control_plan.Boot.{Env, Effect}
use cluster_api_control_plan.Boot.Laws.{IsNew}

module _ (lib : Library) (tcp : ControlPlaneObject) (cp : ControlPlane) where
  -- Cluster API: a machine of the desired version matches it, and a clone names its template.
  -- The API server: the configuration is as it was created.
  pub record IsReadBack (m : Machine) : Type 0 where
    pub version : m.version ≡ tcp.version → lib.matches_kubernetes_version tcp.version m ≡ true
    pub cloned :
        (obj : InfraObject)
        → lookup m.name cp.infra_objects ≡ some obj
        → (lookup lib.cloned_from_name obj.annotations ≡ some tcp.template.infrastructure_ref.name)
          × (lookup lib.cloned_from_group_kind obj.annotations
              ≡ some (lib.group_kind tcp.template.infrastructure_ref))
    pub configured :
        (c : TalosConfig) → lookup m.name cp.talos_configs ≡ some c → c.spec ≡ tcp.config

  -- A machine that was asked for with the present specification, and whose infrastructure and
  -- configuration read back as they were made, is never among the machines that need a rollout.
  pub machines_needing_rollout-new :
      (rules : LabelRules) (pick_fewest : List FailureDomain → List Machine → List Machine → String)
      (env : Env) (cluster_name : String) (before : ControlPlane) (m : Machine)
      (effects : List Effect)
      → IsNew lib rules pick_fewest env cluster_name before tcp m effects
      → IsReadBack m
      → ¬ (In m (machines_needing_rollout lib tcp cp))
  machines_needing_rollout-new rules pick_fewest env cluster_name before m effects new r n =
      let (_, _, out) = machines_needing_rollout-IsOutdated lib tcp cp m n in
      elim out [
        | inl f ↦ absurd (differ (r.version new.versioned) f)
        | inr (inl o) ↦
            let (n', g') = r.cloned o.object o.at in
            elim o.other [
              | inl (t, e, ne) ↦ absurd (ne (ground arith))
              | inr (t, e, ne) ↦ absurd (ne (ground arith))
            ]
        | inr (inr (c, at, ne)) ↦ absurd (ne (sym (r.configured c at)))
      ]
