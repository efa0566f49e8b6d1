-- ===== src/Quorum/Tests.antt =====
-- Runs of the quorum checks, and their theorems at a concrete control plane.
use cluster_api_control_plan.Base.{
  ℕ, ◌≡◌, ◌≢◌, ◌↔◌, ◌⊎◌, Bool, true, false, Option, none, some, List, [], ◌∷◌, refl, Result, ok,
  err, lookup, In, All, say,
}
use cluster_api_control_plan.Objects.{Machine}
use cluster_api_control_plan.Etcd.Names.{
  node_names_for_machine, normalized_names, etcd_member_matches_machine, others_than,
}
use cluster_api_control_plan.Quorum.{
  status_of, is_healthy, is_backed, tally_member, tally_members, judge_removal,
  can_safely_remove_etcd_member, can_safely_add_etcd_member_to, healthy_from, first_list,
  asked_last, recorded_etcd_from,
}
use cluster_api_control_plan.Quorum.Removal.{IsSafeRemoval, can_safely_remove_etcd_member_iff}
use cluster_api_control_plan.Quorum.Addition.{IsSafeAddition, can_safely_add_etcd_member_to_iff}
use cluster_api_control_plan.Samples.{cp_a, cp_b, cp_c, three_members, all_healthy, statuses}

abbrev machines : List Machine
machines = cp_a ∷ cp_b ∷ cp_c ∷ []

remove_from_three : (can_safely_remove_etcd_member three_members cp_b machines all_healthy).0 ≡ true
unfolding can_safely_remove_etcd_member judge_removal tally_members tally_member is_backed
    is_healthy others_than etcd_member_matches_machine node_names_for_machine normalized_names
    lookup
remove_from_three = refl

-- With one healthy member of the three, none may be removed.
keep_last_healthy :
    (can_safely_remove_etcd_member three_members cp_b machines (("cp-a", true) ∷ [])).0 ≡ false
unfolding can_safely_remove_etcd_member judge_removal tally_members tally_member is_backed
    is_healthy others_than etcd_member_matches_machine node_names_for_machine normalized_names
    lookup
keep_last_healthy = refl

can_safely_remove_etcd_member_iff_example :
    ((can_safely_remove_etcd_member three_members cp_b machines all_healthy).0 ≡ true)
    ↔ IsSafeRemoval three_members cp_b machines all_healthy
can_safely_remove_etcd_member_iff_example =
    can_safely_remove_etcd_member_iff three_members cp_b machines all_healthy

can_safely_add_etcd_member_to_iff_example :
    ((can_safely_add_etcd_member_to three_members machines all_healthy).0 ≡ true)
    ↔ IsSafeAddition three_members machines all_healthy
can_safely_add_etcd_member_to_iff_example =
    can_safely_add_etcd_member_to_iff three_members machines all_healthy

listed_by_a : (recorded_etcd_from statuses machines (some cp_b)).0 ≡ ok three_members
unfolding recorded_etcd_from healthy_from first_list asked_last others_than status_of is_healthy
    lookup cluster_api_control_plan.Base.insert
listed_by_a = refl

none_listed :
    (recorded_etcd_from [] machines none).0
    ≡ err (say "no healthy etcd member reported the etcd member list")
unfolding recorded_etcd_from healthy_from first_list asked_last others_than status_of is_healthy
    lookup cluster_api_control_plan.Base.insert
none_listed = refl
