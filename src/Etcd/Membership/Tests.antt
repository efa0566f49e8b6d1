-- ===== src/Etcd/Membership/Tests.antt =====
-- Member lists that are verified.
use cluster_api_control_plan.Base.{◌≡◌, List, [], ◌∷◌, refl, ok}
use cluster_api_control_plan.Objects.{Machine}
use cluster_api_control_plan.Etcd.Membership.{new_etcd_membership, present_names, verify}
use cluster_api_control_plan.Etcd.Membership.Laws.{IsVerified, verify-IsVerified}
use cluster_api_control_plan.Samples.{cp_a, cp_b, cp_c, three_members}

abbrev machines : List Machine
machines = cp_a ∷ cp_b ∷ cp_c ∷ []

all_joined :
    verify (new_etcd_membership machines machines) "cp-a" three_members
    ≡ ok (present_names three_members)
unfolding verify new_etcd_membership cluster_api_control_plan.Etcd.Names.node_names_for_machine
    cluster_api_control_plan.Etcd.Names.etcd_member_names
all_joined = refl

verify-IsVerified_example : IsVerified machines machines three_members
verify-IsVerified_example =
    verify-IsVerified machines machines "cp-a" three_members (present_names three_members)
      all_joined
