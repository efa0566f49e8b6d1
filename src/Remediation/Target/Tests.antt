-- ===== src/Remediation/Target/Tests.antt =====
-- The choice of the machine to remediate among three.
use cluster_api_control_plan.Base.{◌≡◌, none, some, List, [], ◌∷◌, refl}
use cluster_api_control_plan.Objects.{Machine}
use cluster_api_control_plan.Remediation.Target.{machine_to_be_remediated}
use cluster_api_control_plan.Remediation.Target.Laws.{
  IsMostBroken, machine_to_be_remediated-IsMostBroken,
}
use cluster_api_control_plan.Samples.{cp_a, cp_b, cp_c, control_plane, library, statuses}

abbrev machines : List Machine
machines = cp_a ∷ cp_b ∷ cp_c ∷ []

b_is_chosen : machine_to_be_remediated library control_plane machines statuses ≡ some cp_b
unfolding machine_to_be_remediated
b_is_chosen = refl

machine_to_be_remediated-IsMostBroken_example :
    IsMostBroken library control_plane machines statuses cp_b
machine_to_be_remediated-IsMostBroken_example =
    machine_to_be_remediated-IsMostBroken library control_plane machines statuses cp_b b_is_chosen

none_is_chosen : machine_to_be_remediated library control_plane (cp_a ∷ []) statuses ≡ none
unfolding machine_to_be_remediated
none_is_chosen = refl
