-- ===== src/Scale/Down.antt =====
-- controllers/scale.go and controllers/health.go: the scale-down, and the wait for nodes that boot.
pub mod Laws
pub mod Once
mod Tests
use cluster_api_control_plan.Base.{
  ℕ, ◌*◌, Bool, true, false, ◌&&◌, not, Option, none, some, List, [], ◌∷◌, String, any, filter,
  length, map, sort_by, compare_string, if◌then◌else◌, str_eq, Message, Error, Result, ok, err, say,
  about, counts, wrap, insert,
}
use cluster_api_control_plan.Objects.{
  Machine, ControlPlaneObject, Library, Value, fails, set_condition, second,
}
use cluster_api_control_plan.Remediation.Api.{Answer, error_unless_gone}
use cluster_api_control_plan.Preflight.Nodes.{NodeCalls}
use cluster_api_control_plan.Preflight.Checks.{Failures, preflight_checks}
use cluster_api_control_plan.Scale.{FailureDomain, select_machine_for_scale_down}

-- What the watch of the nodes' events yields until it times out.
pub data EventResult : Type 0 where
  boot_started boot_stopped : String → EventResult
  other_event deadline_exceeded canceled : EventResult
  watch_failed : Error → EventResult

abbrev with_node : String → List String → List String
with_node node nodes = if any (str_eq node) nodes then nodes else node ∷ nodes

abbrev starts : EventResult → List String → List String
starts (boot_started node) nodes = with_node node nodes
starts _ nodes = nodes

-- The set of the nodes that started to boot.
unfoldable pub started : List EventResult → List String
started [] = []
started (e ∷ es) = starts e (started es)

abbrev pub is_stop_of : String → EventResult → Bool
is_stop_of node (boot_stopped other) = str_eq other node
is_stop_of node _ = false

abbrev failure_in : List EventResult → Option Error
failure_in [] = none
failure_in (watch_failed e ∷ _) = some (Message.both (say "failed to watch events") e)
failure_in (_ ∷ es) = failure_in es

-- All messages of a list.
abbrev joined : Failures → Message
joined [] = say ""
joined (f ∷ fs) = Message.both f (joined fs)

abbrev booting : List String → Option Error
booting [] = none
booting (node ∷ nodes) = some (joined (map (about "node is still in boot sequence") (node ∷ nodes)))

-- A failed watch ends the loop; otherwise a node that started to boot must have stopped.
unfoldable pub boot_error : List EventResult → Option Error
unfolding started
boot_error events = elim (failure_in events) [
  | some e ↦ some e
  | none ↦ booting (
      sort_by compare_string (filter (λ node. not (any (is_stop_of node) events)) (started events)))
]

-- The first machine whose events cannot be watched.
unfoldable pub watch_error : (Machine → Option Error) → List Machine → Option Error
watch_error watch [] = none
watch_error watch (m ∷ ms) =
    let rest = watch_error watch ms in elim (watch m) [ some e ↦ some e | none ↦ rest ]

unfoldable pub ensure_nodes_booted :
    (Machine → Option Error) → List EventResult → List Machine → Option Error
unfolding watch_error boot_error
ensure_nodes_booted watch events machines = elim (watch_error watch machines) [
  | some e ↦ some e
  | none ↦ boot_error events
]

unfoldable pub boot_check_machines : Library → List Machine → List Machine
boot_check_machines lib machines =
    filter (λ m. not (lib.is_unhealthy_and_owner_remediated m)) machines

pub data Effect : Type 0 where
  deleted : String → Effect
  event : String → Failures → Effect

pub record Outcome : Type 0 where
  pub tcp : ControlPlaneObject
  pub effects : List Effect
  pub requeue_after : ℕ
  pub error : Option Error

abbrev pub resized : String → Message → ControlPlaneObject → ControlPlaneObject
resized reason message tcp = record tcp {
  conditions = set_condition "Resized" fails reason message tcp.conditions;
}

unfoldable pub hold_scale_operation : String → Message → Failures → ControlPlaneObject → Outcome
hold_scale_operation reason summary failures tcp = record {
  tcp = resized reason (Message.both summary (joined failures)) tcp;
  effects = event "ControlPlaneUnhealthy" failures ∷ [];
  requeue_after = 10 * second;
  error = none;
}

unfoldable pub delete_control_plane_machine :
    (Machine → Answer) → Machine → ControlPlaneObject → Outcome
delete_control_plane_machine delete m tcp = elim (error_unless_gone (delete m)) [
  | some e ↦ record {
    tcp = tcp;
    effects = deleted m.name ∷ [];
    requeue_after = 0;
    error = some (wrap "failed to delete control plane machine" m.name e);
  }
  | none ↦ record {
    tcp = tcp;
    effects = deleted m.name ∷ [];
    requeue_after = 20 * second;
    error = none;
  }
]

abbrev pub summary_of : ControlPlaneObject → List Machine → Message
summary_of tcp machines =
    Message.replicas_of "Scaling down control plane to replicas (actual)" tcp.replicas
      (length machines)

abbrev fail : ControlPlaneObject → Error → Outcome
fail tcp e = record { tcp = tcp; effects = []; requeue_after = 0; error = some e }

module _ (components : List String) (nodes : Machine → Result NodeCalls)
    (watch : Machine → Option Error) (events : List EventResult) (delete : Machine → Answer)
    (lib : Library) where
  -- What follows the preflight checks.
  unfoldable pub after_preflight :
      ControlPlaneObject
      → List Machine
      → Machine
      → Message
      → Option Failures
      → Option Error
      → Outcome
  unfolding hold_scale_operation delete_control_plane_machine
  after_preflight tcp machines victim summary (some failures) booting =
      hold_scale_operation "ScalingDown" summary failures tcp
  after_preflight tcp machines victim summary none (some e) = record {
    tcp = tcp;
    effects = [];
    requeue_after = 10 * second;
    error = none;
  }
  after_preflight tcp machines victim summary none none =
      delete_control_plane_machine delete victim tcp

  unfoldable pub scale_down_victim :
      ControlPlaneObject → List Machine → Message → Result Machine → Outcome
  unfolding after_preflight boot_check_machines
  scale_down_victim tcp machines summary (err e) = fail tcp e
  scale_down_victim tcp machines summary (ok victim) =
      after_preflight tcp machines victim summary
        (preflight_checks components nodes tcp machines (victim ∷ []))
        (ensure_nodes_booted watch events (boot_check_machines lib machines))

  -- scaleDownControlPlane
  unfoldable pub scale_down_control_plane :
      (List FailureDomain → List Machine → List Machine → String)
      → List FailureDomain
      → ControlPlaneObject
      → List Machine
      → List Machine
      → Outcome
  unfolding scale_down_victim
  scale_down_control_plane pick_most domains tcp [] outdated =
      fail (resized "ScalingDown" (summary_of tcp []) tcp) (say "no machines found")
  scale_down_control_plane pick_most domains tcp (m ∷ []) outdated = record {
    tcp = resized "ScalingDown" (say "Cannot scale down control plane nodes to 0") tcp;
    effects = [];
    requeue_after = 0;
    error = none;
  }
  scale_down_control_plane pick_most domains tcp (m ∷ n ∷ ms) outdated =
      scale_down_victim (resized "ScalingDown" (summary_of tcp (m ∷ n ∷ ms)) tcp) (m ∷ n ∷ ms)
        (summary_of tcp (m ∷ n ∷ ms))
        (select_machine_for_scale_down pick_most lib domains (m ∷ n ∷ ms) outdated)
