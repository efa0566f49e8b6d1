-- ===== src/Preflight/Checks/Parts.antt =====
-- What it says of each part of the preflight checks that it found no failure.
use cluster_api_control_plan.Base.{
  ◌≡◌, inl, inr, true, Option, none, some, List, [], ◌∷◌, ◌++◌, String, In, arith, refl, Bool-cases,
  Option-cases, Result, Error,
}
use cluster_api_control_plan.Objects.{Machine, Condition, is_holds, has_node}
use cluster_api_control_plan.Preflight.Nodes.{NodeCalls, node_error, nodes_healthcheck}
use cluster_api_control_plan.Preflight.Checks.{
  Failures, missing_nodes, etcd_failures, failure_of, join_failures,
}

module _ (components : List String) (dial : Machine → Result NodeCalls) where
  pub nodes_healthcheck-In :
      (ms : List Machine)
      → nodes_healthcheck components dial ms ≡ none
      → (m : Machine) → In m ms
      → node_error components dial m ≡ none
  unfolding nodes_healthcheck
  nodes_healthcheck-In [] h m n = absurd n
  nodes_healthcheck-In (x ∷ xs) h m n = elim (Option-cases (node_error components dial x)) [
    | inr (e, k) ↦ absurd (ground arith)
    | inl k ↦ elim n [ inl i ↦ cc | inr at ↦ nodes_healthcheck-In xs (ground arith) m at ]
  ]

pub missing_nodes-none :
    (ms : List Machine) → missing_nodes ms ≡ [] → (m : Machine) → In m ms → has_node m ≡ true
unfolding missing_nodes
missing_nodes-none [] h m n = absurd n
missing_nodes-none (x ∷ xs) h m n = elim (Bool-cases (has_node x)) [
  | inr k ↦ absurd (ground arith)
  | inl k ↦ elim n [ inl i ↦ cc | inr at ↦ missing_nodes-none xs (ground arith) m at ]
]

pub append-nil : {A : Type 0} (xs ys : List A) → xs ++ ys ≡ [] → (xs ≡ []) × (ys ≡ [])
append-nil [] ys h = (refl, h)
append-nil (x ∷ xs) ys h = cc

pub failure_of-nil : (t : String) (e : Option Error) → failure_of t e ≡ [] → e ≡ none
failure_of-nil t none h = refl
failure_of-nil t (some e) h = cc

pub join_failures-none : (fs : Failures) → join_failures fs ≡ none → fs ≡ []
join_failures-none [] h = refl
join_failures-none (f ∷ fs) h = cc

pub etcd_failures-nil :
    (c : Option Condition)
    → etcd_failures c ≡ []
    → (x : Condition) × (c ≡ some x) × (is_holds x.status ≡ true)
unfolding etcd_failures
etcd_failures-nil none h = cc
etcd_failures-nil (some c) h = (c, refl, ground arith)
