-- ===== src/Etcd/Names/Tests.antt =====
-- Members and machines that are matched, and the theorems about them at concrete lists.
use cluster_api_control_plan.Base.{◌≡◌, true, false, none, some, List, [], ◌∷◌, refl}
use cluster_api_control_plan.Objects.{Machine, Member}
use cluster_api_control_plan.Etcd.Names.{node_names_for_machine, others_than, identify_etcd_member}
use cluster_api_control_plan.Etcd.Names.Identify.{IsIdentified, identify_etcd_member-IsIdentified}
use cluster_api_control_plan.Samples.{cp_a, cp_b, cp_c, member_of, three_members, running_machine}

-- A machine without a node yet.
abbrev new_machine : Machine
new_machine = record cp_b { node_ref = none }

abbrev machines : List Machine
machines = cp_a ∷ new_machine ∷ cp_c ∷ []

-- A node name with a domain and upper case letters.
names_of_node :
    node_names_for_machine (running_machine "CP-A.example" 1) ≡ node_names_for_machine cp_a
unfolding node_names_for_machine
names_of_node = refl

found_by_elimination :
    identify_etcd_member three_members new_machine machines ≡ (some (member_of 2 "cp-b"), true)
unfolding identify_etcd_member
found_by_elimination = refl

identify_etcd_member-IsIdentified_example :
    IsIdentified three_members new_machine (others_than new_machine machines) (member_of 2 "cp-b")
identify_etcd_member-IsIdentified_example =
    identify_etcd_member-IsIdentified three_members new_machine machines (member_of 2 "cp-b")
      found_by_elimination

abbrev two_members : List Member
two_members = member_of 1 "cp-a" ∷ member_of 3 "cp-c" ∷ []

gone : identify_etcd_member two_members new_machine machines ≡ (none, true)
unfolding identify_etcd_member
gone = refl

abbrev four_members : List Member
four_members = member_of 9 "other" ∷ three_members

not_told : (identify_etcd_member four_members new_machine machines).1 ≡ false
unfolding identify_etcd_member
not_told = refl
