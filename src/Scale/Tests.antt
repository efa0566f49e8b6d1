-- ===== src/Scale/Tests.antt =====
-- A scale-down of three machines in two failure domains, one of the machines annotated.
use cluster_api_control_plan.Base.{◌≡◌, String, Option, none, some, List, [], ◌∷◌, refl, ok, true}
use cluster_api_control_plan.Objects.{Machine, plain}
use cluster_api_control_plan.Scale.{FailureDomain, select_machine_for_scale_down}
use cluster_api_control_plan.Scale.Laws.{IsRemovable, select_machine_for_scale_down-IsRemovable}
use cluster_api_control_plan.Samples.{cp_a, cp_b, cp_c, library}

abbrev domains : List FailureDomain
domains =
    record { name = "east"; control_plane = some true }
    ∷ record { name = "west"; control_plane = some true }
    ∷ []

-- A choice of the first domain.
abbrev pick_first : List FailureDomain → List Machine → List Machine → String
pick_first [] _ _ = ""
pick_first (d ∷ _) _ _ = d.name

abbrev annotated_c : Machine
annotated_c = record cp_c {
  failure_domain = "east";
  annotations = ("delete-machine", plain "") ∷ [];
}

abbrev machines : List Machine
machines =
    record cp_a { failure_domain = "east" }
    ∷ record cp_b { failure_domain = "west" }
    ∷ annotated_c
    ∷ []

c_is_selected :
    select_machine_for_scale_down pick_first library domains machines [] ≡ ok annotated_c
unfolding select_machine_for_scale_down
    cluster_api_control_plan.Scale.machine_in_failure_domain_with_most_machines
    cluster_api_control_plan.Scale.oldest cluster_api_control_plan.Scale.eligible
    cluster_api_control_plan.Base.lookup
    cluster_api_control_plan.Scale.failure_domain_with_most_machines
c_is_selected = refl

select_machine_for_scale_down-IsRemovable_example :
    IsRemovable pick_first library domains machines [] annotated_c
select_machine_for_scale_down-IsRemovable_example =
    select_machine_for_scale_down-IsRemovable pick_first library domains machines [] annotated_c
      c_is_selected
