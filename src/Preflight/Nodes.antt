-- ===== src/Preflight/Nodes.antt =====
-- controllers/health.go: the services of a node, and the static pods of the control plane components.
pub mod Laws
mod Tests
use cluster_api_control_plan.Base.{
  ℕ, Bool, true, false, ◌&&◌, not, Option, none, some, List, [], ◌∷◌, ◌++◌, String, codes, filter,
  any, find?, if◌then◌else◌, ◌==◌, Message, Error, Result, ok, err, wrap, about,
}
use cluster_api_control_plan.Objects.{Machine}

-- staticPodStatus
pub record StaticPodStatus : Type 0 where
  pub id : String
  pub ready : Bool

-- A Talos service of the node: its name, its state, and its health.
pub record NodeService : Type 0 where
  pub id : String
  pub state : String
  pub unknown : Bool
  pub healthy : Bool

-- What the Talos API of a machine answers: the services of all messages in order, and the pods.
pub record NodeCalls : Type 0 where
  pub service_list : Result (List NodeService)
  pub static_pod_statuses : Result (List StaticPodStatus)

-- `strings.HasPrefix`
abbrev pub is_prefix : List ℕ → List ℕ → Bool
is_prefix [] _ = true
is_prefix (_ ∷ _) [] = false
is_prefix (x ∷ xs) (y ∷ ys) = (x == y) && is_prefix xs ys

-- The pods that the kubelet names after the component, on any node.
abbrev pub runs_component : String → StaticPodStatus → Bool
runs_component component pod =
    is_prefix (codes "kube-system/" ++ codes component ++ codes "-") (codes pod.id)

-- The inner loop, given whether a pod was found.
unfoldable pub component_error : String → Bool → List StaticPodStatus → Option Error
component_error component true [] = none
component_error component false [] = some (about "static pod not found" component)
component_error component found (pod ∷ pods) =
    if not (runs_component component pod)
    then component_error component found pods
    else if not pod.ready
    then some (about "static pod is not ready" component)
    else component_error component true pods

unfoldable pub control_plane_components_error : List String → List StaticPodStatus → Option Error
control_plane_components_error [] pods = none
control_plane_components_error (component ∷ components) pods =
    let rest = control_plane_components_error components pods in
    elim (component_error component false pods) [ some e ↦ some e | none ↦ rest ]

-- The first service that is known to be unhealthy.
unfoldable pub services_error : List NodeService → Option Error
services_error [] = none
services_error (s ∷ ss) =
    if not s.unknown && not s.healthy
    then some (wrap "Service is unhealthy" s.id (about s.state ""))
    else services_error ss

-- The function literal of nodesHealthcheck. `components` are the names of the static pods that Talos
-- renders.
module _ (components : List String) (dial : Machine → Result NodeCalls) where
  unfoldable pub node_error : Machine → Option Error
  unfolding services_error control_plane_components_error
  node_error m = elim (dial m) [
    | err e ↦ some e
    | ok c ↦ elim c.service_list [
      | err e ↦ some e
      | ok services ↦ elim (services_error services) [
        | some e ↦ some e
        | none ↦ elim c.static_pod_statuses [
          | err e ↦ some e
          | ok pods ↦ control_plane_components_error components pods
        ]
      ]
    ]
  ]

  unfoldable pub nodes_healthcheck : List Machine → Option Error
  unfolding node_error
  nodes_healthcheck [] = none
  nodes_healthcheck (m ∷ ms) =
      let rest = nodes_healthcheck ms in
      elim (node_error m) [ some e ↦ some (wrap "machine" m.name e) | none ↦ rest ]
