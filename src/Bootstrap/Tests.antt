-- ===== src/Bootstrap/Tests.antt =====
-- Passes of the bootstrap of a new control plane.
use cluster_api_control_plan.Base.{◌≡◌, inl, false, none, List, [], ◌∷◌, refl, ok, In}
use cluster_api_control_plan.Objects.{Machine}
use cluster_api_control_plan.Bootstrap.{
  Nodes, requested, BootstrapAnswer, bootstrap_candidates, is_initialized, reconcile_bootstrap,
}
use cluster_api_control_plan.Bootstrap.Requests.{
  IsNamed, IsSoleStart, reconcile_bootstrap-IsSoleStart,
}
use cluster_api_control_plan.Bootstrap.Pending.{IsSettled, reconcile_bootstrap-IsSettled}
use cluster_api_control_plan.Samples.{cp_a, cp_b, new_control_plane}

-- Nodes that hold no data and take the request.
abbrev empty_nodes : Nodes
empty_nodes = record {
  has_etcd_data = λ _. ok false;
  client = λ _. none;
  bootstrap = λ _. BootstrapAnswer.accepted;
}

abbrev machines : List Machine
machines = cp_b ∷ cp_a ∷ []

oldest_is_asked :
    In
      (requested "cp-a" "cp-a")
      (reconcile_bootstrap empty_nodes machines new_control_plane).effects
unfolding reconcile_bootstrap cluster_api_control_plan.Bootstrap.bootstrap_control_plane
    bootstrap_candidates cluster_api_control_plan.Bootstrap.etcd_data_holder_among
    cluster_api_control_plan.Bootstrap.bootstrap_machine
oldest_is_asked = inl refl

reconcile_bootstrap-IsSoleStart_example :
    (target : Machine) × IsNamed empty_nodes "cp-a" "cp-a" target
    × IsSoleStart empty_nodes machines new_control_plane target
reconcile_bootstrap-IsSoleStart_example =
    reconcile_bootstrap-IsSoleStart empty_nodes machines new_control_plane "cp-a" "cp-a"
      oldest_is_asked

not_bootstrapped : (new_control_plane.bootstrapped ≡ false)
not_bootstrapped = refl

reconcile_bootstrap-IsSettled_example :
    IsSettled empty_nodes
      (bootstrap_candidates machines)
      (reconcile_bootstrap empty_nodes machines new_control_plane)
reconcile_bootstrap-IsSettled_example =
    reconcile_bootstrap-IsSettled empty_nodes machines new_control_plane refl (inl refl)
