-- ===== src/Preflight/Nodes/Tests.antt =====
-- The pods of a node.
use cluster_api_control_plan.Base.{String, ◌≡◌, true, none, List, [], ◌∷◌, refl}
use cluster_api_control_plan.Preflight.Nodes.{StaticPodStatus, control_plane_components_error}

abbrev pods : List StaticPodStatus
pods =
    record { id = "kube-system/kube-apiserver-cp-a"; ready = true }
    ∷ record { id = "kube-system/kube-scheduler-cp-a"; ready = true }
    ∷ []

abbrev components : List String
components = "kube-apiserver" ∷ "kube-scheduler" ∷ []

all_up : control_plane_components_error components pods ≡ none
unfolding control_plane_components_error cluster_api_control_plan.Preflight.Nodes.component_error
all_up = refl
