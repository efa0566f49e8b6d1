-- ===== src/Preflight/Checks/Laws.antt =====
-- What holds when a scale operation may start.
use cluster_api_control_plan.Base.{
  ◌≡◌, ◌⊎◌, inl, inr, Bool, true, false, ◌||◌, not, none, List, [], ◌∷◌, ◌++◌, String, any, All-In,
  In, filter-In, In-sort_by, sort_by-In, any-false, arith, refl, lookup, Bool-cases, Option-cases,
  Result, ok, err, Message, sort_by,
}
use cluster_api_control_plan.Objects.{
  Machine, ControlPlaneObject, condition_holds, is_deleting, has_node, is_leaving,
}
use cluster_api_control_plan.Quorum.{Statuses, can_safely_add_etcd_member}
use cluster_api_control_plan.Remediation.Progress.{remediation_in_progress}
use cluster_api_control_plan.Etcd.Health.{health_checkable}
use cluster_api_control_plan.Preflight.Nodes.{NodeCalls, node_error, nodes_healthcheck}
use cluster_api_control_plan.Preflight.Checks.{
  Failures, etcd_cluster_healthy, is_excluded, required, missing_nodes, checkable, etcd_failures,
  health_failures, preflight_checks, find_joinable, preflight_checks_while_remediating,
  preflight_checks_for_scale_up, by_creation, by_name, quorum_failure, joinable_failure, failure_of,
}
use cluster_api_control_plan.Preflight.Checks.Parts.{
  nodes_healthcheck-In, missing_nodes-none, append-nil, failure_of-nil, join_failures-none,
  etcd_failures-nil,
}

module _ (components : List String) (dial : Machine → Result NodeCalls)
    (tcp : ControlPlaneObject) where
  -- The control plane is ready for a scale operation: no machine is being deleted, and every one that
  -- is not excluded has a node, with healthy services and components unless it is leaving etcd, and
  -- etcd was found healthy.
  pub record IsReady (machines exclude_for : List Machine) : Type 0 where
    pub none_deleting : (m : Machine) → In m machines → is_deleting m ≡ false
    pub noded :
        (m : Machine) → In m machines → is_excluded exclude_for m ≡ false → has_node m ≡ true
    pub healthy :
        (m : Machine)
        → In m machines
        → is_excluded exclude_for m ≡ false
        → is_leaving m ≡ false
        → node_error components dial m ≡ none
    pub etcd : condition_holds etcd_cluster_healthy tcp.conditions ≡ true

  none-deleting :
      (ms : List Machine)
      → any is_deleting ms ≡ false
      → (m : Machine) → In m ms
      → is_deleting m ≡ false
  none-deleting ms h m n = All-In _ ms m (any-false (λ (x : Machine). is_deleting x) ms h) n

  parts :
      (ms : List Machine)
      → health_failures components dial tcp ms ≡ []
      → (missing_nodes ms ≡ [])
        × (nodes_healthcheck components dial (health_checkable (checkable ms)) ≡ none)
        × (etcd_failures (lookup etcd_cluster_healthy tcp.conditions) ≡ [])
  unfolding health_failures
  parts ms h =
      let up : Failures =
        failure_of "control plane components are not healthy"
          (nodes_healthcheck components dial (health_checkable (checkable ms))) in
      let (h', etcd) =
        append-nil (missing_nodes ms ++ up)
          (etcd_failures (lookup etcd_cluster_healthy tcp.conditions)) h in
      let (missing, down) = append-nil (missing_nodes ms) up h' in
      (missing, failure_of-nil _ _ down, etcd)

  ready :
      (machines exclude_for : List Machine)
      → any is_deleting machines ≡ false
      → health_failures components dial tcp (required exclude_for machines) ≡ []
      → IsReady machines exclude_for
  unfolding required checkable health_checkable
  ready machines exclude_for d h =
      let (no_missing, up, etcd) = parts (required exclude_for machines) h in
      let (c, found, holds) = etcd_failures-nil (lookup etcd_cluster_healthy tcp.conditions) etcd in
      let need : (m : Machine)
          → In m machines
          → is_excluded exclude_for m ≡ false
          → In m (required exclude_for machines) =
        λ m n e.
          filter-In _ (sort_by by_name machines) m (sort_by-In by_name m machines n)
            (ground arith) in
      let node : (m : Machine)
          → In m machines
          → is_excluded exclude_for m ≡ false
          → has_node m ≡ true =
        λ m n e. missing_nodes-none (required exclude_for machines) no_missing m (need m n e) in
      record {
        none_deleting = none-deleting machines d;
        noded = node;
        healthy = λ m n e l. nodes_healthcheck-In components dial _ up m (
            filter-In _ (checkable (required exclude_for machines)) m
              (filter-In has_node (required exclude_for machines) m (need m n e) (node m n e))
              (ground (arith, none-deleting machines d m n)));
        etcd = ground arith;
      }

  -- The checks of a control plane that has machines pass only if no machine is being deleted, every
  -- machine that is not excluded has a node, the services and the components of each of those are
  -- healthy unless it is leaving etcd, and the condition says that etcd is healthy.
  pub preflight_checks-IsReady :
      (m : Machine) (ms exclude_for : List Machine)
      → preflight_checks components dial tcp (m ∷ ms) exclude_for ≡ none
      → IsReady (m ∷ ms) exclude_for
  unfolding preflight_checks
  preflight_checks-IsReady m ms exclude_for h = elim (Bool-cases (any is_deleting (m ∷ ms))) [
    | inl t ↦ absurd (ground arith)
    | inr f ↦ ready (m ∷ ms) exclude_for f (join_failures-none _ (ground arith))
  ]

  -- A replacement can join through a machine, and etcd can take it.
  pub record IsJoinable (statuses : Statuses) (machines : List Machine) : Type 0 where
    pub remediating : remediation_in_progress tcp ≡ true
    pub none_deleting : (m : Machine) → In m machines → is_deleting m ≡ false
    pub via : Machine
    pub via_listed : In via machines
    pub via_noded : has_node via ≡ true
    pub via_healthy : node_error components dial via ≡ none
    pub details : Message
    pub quorum :
        can_safely_add_etcd_member statuses (sort_by by_creation machines) ≡ ok (true, details)

  single :
      (m : Machine)
      → nodes_healthcheck components dial (m ∷ []) ≡ none
      → node_error components dial m ≡ none
  single m h = nodes_healthcheck-In components dial (m ∷ []) h m (inl refl)

  find_joinable-true :
      (ms : List Machine)
      → (find_joinable components dial tcp ms).0 ≡ true
      → (m : Machine) × In m ms × (has_node m ≡ true) × (node_error components dial m ≡ none)
  unfolding find_joinable
  find_joinable-true [] h = cc
  find_joinable-true (m ∷ ms) h = elim (Bool-cases (has_node m)) [
    | inr f ↦ let (x, n, a, b) = find_joinable-true ms (ground arith) in (x, inr n, a, b)
    | inl t ↦ elim (Option-cases (nodes_healthcheck components dial (m ∷ []))) [
      | inl e ↦ (m, inl refl, t, single m e)
      | inr (w, e) ↦ let (x, n, a, b) = find_joinable-true ms (ground arith) in (x, inr n, a, b)
    ]
  ]

  joinable_failure-nil :
      (r : Bool × Failures) → joinable_failure components dial tcp r ≡ [] → r.0 ≡ true
  joinable_failure-nil (true, fs) h = refl
  joinable_failure-nil (false, []) h = cc
  joinable_failure-nil (false, f ∷ fs) h = cc

  quorum_failure-nil :
      (r : Result (Bool × Message))
      → quorum_failure components dial tcp r ≡ []
      → (d : Message) × (r ≡ ok (true, d))
  quorum_failure-nil (err e) h = cc
  quorum_failure-nil (ok (false, d)) h = cc
  quorum_failure-nil (ok (true, d)) h = (d, refl)

  joinable :
      (statuses : Statuses) (machines : List Machine)
      → remediation_in_progress tcp ≡ true
      → any is_deleting machines ≡ false
      → preflight_checks_while_remediating components dial tcp statuses machines ≡ none
      → IsJoinable statuses machines
  unfolding preflight_checks_while_remediating
  joinable statuses machines r d h =
      let (a, b) = append-nil _ _ (join_failures-none _ h) in
      let (via, n, noded, up) =
        find_joinable-true (sort_by by_creation machines) (joinable_failure-nil _ a) in
      let (details, q) =
        quorum_failure-nil (can_safely_add_etcd_member statuses (sort_by by_creation machines)) b in
      record {
        remediating = r;
        none_deleting = none-deleting machines d;
        via = via;
        via_listed = In-sort_by by_creation via machines n;
        via_noded = noded;
        via_healthy = up;
        details = details;
        quorum = q;
      }

  -- A scale-up of a control plane that has machines may start only if it is ready, or if a remediation
  -- is in progress, no machine is being deleted, some machine with a node has all its services and
  -- components healthy, and etcd can safely take one more member.
  pub preflight_checks_for_scale_up-MayJoin :
      (statuses : Statuses) (m : Machine) (ms : List Machine)
      → preflight_checks_for_scale_up components dial tcp statuses (m ∷ ms) ≡ none
      → IsReady (m ∷ ms) [] ⊎ IsJoinable statuses (m ∷ ms)
  unfolding preflight_checks_for_scale_up
  preflight_checks_for_scale_up-MayJoin statuses m ms h =
      elim (Option-cases (preflight_checks components dial tcp (m ∷ ms) [])) [
        | inl e ↦ inl (preflight_checks-IsReady m ms [] e)
        | inr (failure, e) ↦
            elim (Bool-cases (not (remediation_in_progress tcp) || any is_deleting (m ∷ ms))) [
              | inl t ↦ absurd (ground arith)
              | inr f ↦
                  elim (Option-cases
                    (preflight_checks_while_remediating components dial tcp statuses (m ∷ ms))) [
                      | inl k ↦ inr (joinable statuses (m ∷ ms) (ground arith) (ground arith) k)
                      | inr (w, k) ↦ absurd (ground arith)
                    ]
            ]
      ]
