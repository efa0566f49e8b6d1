-- ===== src/Preflight/Checks.antt =====
-- controllers/preflight.go: whether a scale operation may start. The machines of the control plane
-- are a list of machines with different names.
mod Parts
pub mod Laws
mod Tests
use cluster_api_control_plan.Base.{
  ℕ, Bool, true, false, ◌&&◌, ◌||◌, not, Option, none, some, List, [], ◌∷◌, ◌++◌, String, any,
  filter, length, leb, ltb, if◌then◌else◌, str_eq, lookup, Message, Error, Result, ok, err, wrap,
  say, about, Cmp, then_by, compare, compare_string, sort_by, is_some,
}
use cluster_api_control_plan.Objects.{
  Machine, ControlPlaneObject, Condition, Status, is_holds, is_deleting, has_node, same_name, fails,
  set_condition, second,
}
use cluster_api_control_plan.Quorum.{Statuses, can_safely_add_etcd_member}
use cluster_api_control_plan.Remediation.Progress.{remediation_in_progress}
use cluster_api_control_plan.Etcd.Health.{health_checkable}
use cluster_api_control_plan.Preflight.Nodes.{NodeCalls, nodes_healthcheck}

abbrev pub Failures : Type 0
Failures = List Message

abbrev pub etcd_cluster_healthy : String
etcd_cluster_healthy = "EtcdClusterHealthyCondition"

abbrev pub by_name : Cmp Machine
by_name a b = compare_string a.name b.name

-- SortedByCreationTimestamp, which breaks ties by name
abbrev pub by_creation : Cmp Machine
by_creation a b = then_by (compare a.created b.created) (compare_string a.name b.name)

abbrev pub is_excluded : List Machine → Machine → Bool
is_excluded exclude_for m = any (λ x. same_name x m) exclude_for

-- The machines without a node, which are failures, and those that are checked.
unfoldable pub required : List Machine → List Machine → List Machine
required exclude_for machines =
    filter (λ m. not (is_excluded exclude_for m)) (sort_by by_name machines)

unfoldable pub missing_nodes : List Machine → Failures
missing_nodes [] = []
missing_nodes (m ∷ ms) =
    if has_node m
    then missing_nodes ms
    else about "machine does not have a corresponding Node yet" m.name ∷ missing_nodes ms

unfoldable pub checkable : List Machine → List Machine
checkable machines = filter has_node machines

abbrev is_no_message : Message → Bool
is_no_message (Message.about f name) = str_eq f "" && str_eq name ""
is_no_message (Message.external f) = str_eq f ""
is_no_message _ = false

-- What the EtcdClusterHealthy condition says.
unfoldable pub etcd_failures : Option Condition → Failures
etcd_failures none = say "etcd cluster health is unknown" ∷ []
etcd_failures (some c) =
    if is_holds c.status
    then []
    else if is_no_message c.message
    then say "etcd cluster health is unknown" ∷ []
    else Message.both (say "etcd cluster is not healthy") c.message ∷ []

abbrev pub failure_of : String → Option Error → Failures
failure_of text none = []
failure_of text (some e) = Message.both (say text) e ∷ []

abbrev pub join_failures : Failures → Option Failures
join_failures [] = none
join_failures (f ∷ fs) = some (f ∷ fs)

unfoldable pub deleting_failure : List Machine → Failures
deleting_failure [] = []
deleting_failure (m ∷ ms) = about "waiting for machine to be deleted" m.name ∷ deleting_failure ms

module _ (components : List String) (dial : Machine → Result NodeCalls)
    (tcp : ControlPlaneObject) where
  -- The checks that follow those of the deletions.
  unfoldable pub health_failures : List Machine → Failures
  unfolding missing_nodes checkable etcd_failures
  health_failures machines =
      missing_nodes machines
      ++ failure_of "control plane components are not healthy"
          (nodes_healthcheck components dial (health_checkable (checkable machines)))
      ++ etcd_failures (lookup etcd_cluster_healthy tcp.conditions)

  -- preflightChecks
  unfoldable pub preflight_checks : List Machine → List Machine → Option Failures
  unfolding health_failures required deleting_failure
  preflight_checks [] exclude_for = none
  preflight_checks (m ∷ ms) exclude_for =
      if any is_deleting (m ∷ ms)
      then some (deleting_failure (sort_by by_name (filter is_deleting (m ∷ ms))))
      else join_failures (health_failures (required exclude_for (m ∷ ms)))

  -- The loop that looks for a machine to join through: whether there is one, and what is wrong with
  -- the machines before it.
  unfoldable pub find_joinable : List Machine → Bool × Failures
  find_joinable [] = (false, [])
  find_joinable (m ∷ ms) =
      let (found, failures) = find_joinable ms in
      if not (has_node m)
      then (found, failures)
      else elim (nodes_healthcheck components dial (m ∷ [])) [
        | some e ↦ (found, e ∷ failures)
        | none ↦ (true, [])
      ]

  abbrev pub joinable_failure : Bool × Failures → Failures
  joinable_failure (true, _) = []
  joinable_failure (false, []) =
      say
        "no control plane machine has all its components healthy for the replacement to join through: no machine has a corresponding Node"
      ∷ []
  joinable_failure (false, f ∷ fs) =
      Message.both
        (say
          "no control plane machine has all its components healthy for the replacement to join through")
        f
      ∷ fs

  abbrev pub quorum_failure : Result (Bool × Message) → Failures
  quorum_failure (err e) =
      Message.both (say "etcd cluster health could not be checked before adding a member") e ∷ []
  quorum_failure (ok (false, details)) =
      Message.both (say "adding an etcd member could result in etcd quorum loss") details ∷ []
  quorum_failure (ok (true, _)) = []

  -- preflightChecksWhileRemediating
  unfoldable pub preflight_checks_while_remediating : Statuses → List Machine → Option Failures
  unfolding find_joinable
  preflight_checks_while_remediating statuses machines =
      let sorted = sort_by by_creation machines in
      join_failures (
        joinable_failure (find_joinable sorted)
        ++ quorum_failure (can_safely_add_etcd_member statuses sorted))

  -- preflightChecksForScaleUp
  unfoldable pub preflight_checks_for_scale_up : Statuses → List Machine → Option Failures
  unfolding preflight_checks preflight_checks_while_remediating
  preflight_checks_for_scale_up statuses machines = elim (preflight_checks machines []) [
    | none ↦ none
    | some failure ↦
        if not (remediation_in_progress tcp) || any is_deleting machines
        then some failure
        else elim (preflight_checks_while_remediating statuses machines) [
          | some relaxed ↦ some (say "remediation in progress" ∷ relaxed)
          | none ↦ none
        ]
  ]
