-- ===== src/Scale/Down/Laws.antt =====
-- When a scale-down deletes a machine.
use cluster_api_control_plan.Base.{
  ◌≤◌, ◌≡◌, inl, inr, Option, none, some, List, [], ◌∷◌, String, length, In, arith, refl, Result,
  ok, err, Option-cases, Error, Message,
}
use cluster_api_control_plan.Objects.{Machine, ControlPlaneObject, Library}
use cluster_api_control_plan.Remediation.Api.{Answer, error_unless_gone}
use cluster_api_control_plan.Preflight.Nodes.{NodeCalls}
use cluster_api_control_plan.Preflight.Checks.{Failures, preflight_checks}
use cluster_api_control_plan.Preflight.Checks.Laws.{IsReady, preflight_checks-IsReady}
use cluster_api_control_plan.Scale.{FailureDomain, select_machine_for_scale_down}
use cluster_api_control_plan.Scale.Laws.{IsRemovable, select_machine_for_scale_down-IsRemovable}
use cluster_api_control_plan.Scale.Down.{
  EventResult, ensure_nodes_booted, boot_check_machines, deleted, Outcome, resized,
  hold_scale_operation, delete_control_plane_machine, summary_of, after_preflight,
  scale_down_victim, scale_down_control_plane,
}

module _ (components : List String) (nodes : Machine → Result NodeCalls)
    (watch : Machine → Option Error) (events : List EventResult) (delete : Machine → Answer)
    (lib : Library) where
  delete-only :
      (name : String) (victim : Machine) (tcp : ControlPlaneObject)
      → In (deleted name) (delete_control_plane_machine delete victim tcp).effects
      → (victim.name ≡ name)
        × ((delete_control_plane_machine delete victim tcp).effects ≡ deleted name ∷ [])
  unfolding delete_control_plane_machine
  delete-only name victim tcp n = elim (Option-cases (error_unless_gone (delete victim))) [
    | inl e ↦ ground arith
    | inr (w, e) ↦ ground arith
  ]

  -- What has to hold when the machine is deleted.
  pub record IsSafeDown (pick_most : List FailureDomain → List Machine → List Machine → String)
      (domains : List FailureDomain) (tcp : ControlPlaneObject) (machines outdated : List Machine)
      (name : String) (o : Outcome) : Type 0 where
    pub victim : Machine
    pub named : victim.name ≡ name
    pub only : o.effects ≡ deleted name ∷ []
    pub several : 2 ≤ length machines
    pub removable : IsRemovable pick_most lib domains machines outdated victim
    pub ready :
        IsReady components nodes
          (resized "ScalingDown" (summary_of tcp machines) tcp)
          machines
          (victim ∷ [])
    pub booted : ensure_nodes_booted watch events (boot_check_machines lib machines) ≡ none

  after_preflight-deleted :
      (name : String) (tcp : ControlPlaneObject) (machines : List Machine) (victim : Machine)
      (summary : Message) (p : Option Failures) (b : Option Error)
      → In
          (deleted name)
          (after_preflight components nodes watch events delete lib tcp machines victim summary p
            b).effects
      → (p ≡ none)
        × (b ≡ none)
        × (victim.name ≡ name)
        × ((after_preflight components nodes watch events delete lib tcp machines victim summary p
              b).effects
            ≡ deleted name ∷ [])
  unfolding after_preflight hold_scale_operation
  after_preflight-deleted name tcp machines victim summary (some f) b (inl e) = cc
  after_preflight-deleted name tcp machines victim summary (some f) b (inr n) = absurd n
  after_preflight-deleted name tcp machines victim summary none (some e) n = absurd n
  after_preflight-deleted name tcp machines victim summary none none n =
      let (a, b) = delete-only name victim tcp n in (refl, refl, a, b)

  -- A scale-down deletes a machine only if there are two at least, it is the one that is removable
  -- first, the control plane is ready but for that machine, and every machine that is not to be
  -- remediated has finished to boot as far as its events tell; and it deletes no other machine.
  pub scale_down_control_plane-IsSafeDown :
      (pick_most : List FailureDomain → List Machine → List Machine → String)
      (domains : List FailureDomain) (tcp : ControlPlaneObject) (machines outdated : List Machine)
      (name : String)
      → In
          (deleted name)
          (scale_down_control_plane components nodes watch events delete lib pick_most domains tcp
            machines outdated).effects
      → IsSafeDown pick_most domains tcp machines outdated name (
          scale_down_control_plane components nodes watch events delete lib pick_most domains tcp
            machines outdated)
  unfolding scale_down_control_plane scale_down_victim
  scale_down_control_plane-IsSafeDown pick_most domains tcp [] outdated name n = absurd n
  scale_down_control_plane-IsSafeDown pick_most domains tcp (m ∷ []) outdated name n = absurd n
  scale_down_control_plane-IsSafeDown pick_most domains tcp (m ∷ k ∷ ms) outdated name n =
      from (select_machine_for_scale_down pick_most lib domains (m ∷ k ∷ ms) outdated) refl n
    where
      from :
          (r : Result Machine)
          → select_machine_for_scale_down pick_most lib domains (m ∷ k ∷ ms) outdated ≡ r
          → In
              (deleted name)
              (scale_down_victim components nodes watch events delete lib
                (resized "ScalingDown" (summary_of tcp (m ∷ k ∷ ms)) tcp)
                (m ∷ k ∷ ms)
                (summary_of tcp (m ∷ k ∷ ms))
                r).effects
          → IsSafeDown pick_most domains tcp (m ∷ k ∷ ms) outdated name (
              scale_down_victim components nodes watch events delete lib
                (resized "ScalingDown" (summary_of tcp (m ∷ k ∷ ms)) tcp)
                (m ∷ k ∷ ms)
                (summary_of tcp (m ∷ k ∷ ms))
                r)
      from (err e) h n = absurd n
      from (ok victim) h n =
          let tcp' : ControlPlaneObject = resized "ScalingDown" (summary_of tcp (m ∷ k ∷ ms)) tcp in
          let (p, b, named, only) =
            after_preflight-deleted name tcp' (m ∷ k ∷ ms) victim (summary_of tcp (m ∷ k ∷ ms))
              (preflight_checks components nodes tcp' (m ∷ k ∷ ms) (victim ∷ []))
              (ensure_nodes_booted watch events (boot_check_machines lib (m ∷ k ∷ ms))) n in
          record {
            victim = victim;
            named = named;
            only = only;
            several = omega arith;
            removable =
                select_machine_for_scale_down-IsRemovable pick_most lib domains (m ∷ k ∷ ms)
                  outdated victim h;
            ready = preflight_checks-IsReady components nodes tcp' m (k ∷ ms) (victim ∷ []) p;
            booted = b;
          }
