-- ===== src/Scale/Down/Once.antt =====
-- A scale-down deletes one machine at most.
use cluster_api_control_plan.Base.{
  ◌≤◌, inl, inr, Bool, true, false, Option, none, some, List, [], ◌∷◌, String, count, arith, Error,
  Message, Result, ok, err, Option-cases,
}
use cluster_api_control_plan.Objects.{Machine, ControlPlaneObject, Library}
use cluster_api_control_plan.Remediation.Api.{Answer, error_unless_gone}
use cluster_api_control_plan.Preflight.Nodes.{NodeCalls}
use cluster_api_control_plan.Preflight.Checks.{Failures}
use cluster_api_control_plan.Scale.{FailureDomain, select_machine_for_scale_down}
use cluster_api_control_plan.Scale.Down
use cluster_api_control_plan.Scale.Down.{
  EventResult, resized, deleted, hold_scale_operation, delete_control_plane_machine,
  after_preflight, scale_down_victim, scale_down_control_plane, ensure_nodes_booted,
  boot_check_machines, summary_of,
}
use cluster_api_control_plan.Preflight.Checks.{preflight_checks}

abbrev pub is_deletion : Down.Effect → Bool
is_deletion (deleted _) = true
is_deletion _ = false

module _ (components : List String) (nodes : Machine → Result NodeCalls)
    (watch : Machine → Option Error) (events : List EventResult) (delete : Machine → Answer)
    (lib : Library) where
  delete-once :
      (victim : Machine) (tcp : ControlPlaneObject)
      → count is_deletion (delete_control_plane_machine delete victim tcp).effects ≤ 1
  unfolding delete_control_plane_machine
  delete-once victim tcp = elim (Option-cases (error_unless_gone (delete victim))) [
    | inl e ↦ rw (e, delete_control_plane_machine) (omega arith)
    | inr (x, e) ↦ rw (e, delete_control_plane_machine) (omega arith)
  ]

  after_preflight-once :
      (tcp : ControlPlaneObject) (machines : List Machine) (victim : Machine) (summary : Message)
      (p : Option Failures) (b : Option Error)
      → count is_deletion
          (after_preflight components nodes watch events delete lib tcp machines victim summary p
            b).effects
        ≤ 1
  unfolding after_preflight hold_scale_operation
  after_preflight-once tcp machines victim summary (some f) b = omega arith
  after_preflight-once tcp machines victim summary none (some e) = omega arith
  after_preflight-once tcp machines victim summary none none = delete-once victim tcp

  scale_down_victim-once :
      (tcp : ControlPlaneObject) (machines : List Machine) (summary : Message) (r : Result Machine)
      → count is_deletion
          (scale_down_victim components nodes watch events delete lib tcp machines summary
            r).effects
        ≤ 1
  unfolding scale_down_victim
  scale_down_victim-once tcp machines summary (err e) = omega arith
  scale_down_victim-once tcp machines summary (ok victim) =
      after_preflight-once tcp machines victim summary
        (preflight_checks components nodes tcp machines (victim ∷ []))
        (ensure_nodes_booted watch events (boot_check_machines lib machines))

  pub scale_down_control_plane-once :
      (pick_most : List FailureDomain → List Machine → List Machine → String)
      (domains : List FailureDomain) (tcp : ControlPlaneObject) (machines outdated : List Machine)
      → count is_deletion
          (scale_down_control_plane components nodes watch events delete lib pick_most domains tcp
            machines outdated).effects
        ≤ 1
  unfolding scale_down_control_plane
  scale_down_control_plane-once pick_most domains tcp [] outdated = omega arith
  scale_down_control_plane-once pick_most domains tcp (m ∷ []) outdated = omega arith
  scale_down_control_plane-once pick_most domains tcp (m ∷ n ∷ ms) outdated =
      scale_down_victim-once (resized "ScalingDown" (summary_of tcp (m ∷ n ∷ ms)) tcp) (m ∷ n ∷ ms)
        (summary_of tcp (m ∷ n ∷ ms))
        (select_machine_for_scale_down pick_most lib domains (m ∷ n ∷ ms) outdated)
