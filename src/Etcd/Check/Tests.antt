-- ===== src/Etcd/Check/Tests.antt =====
-- A health check of three machines that are all healthy.
use cluster_api_control_plan.Base.{
  insert, lookup, ◌≡◌, ◌≤◌, none, List, [], ◌∷◌, refl, length, All, arith,
}
use cluster_api_control_plan.Objects.{Machine}
use cluster_api_control_plan.Etcd.Health.{
  health_checkable, probe_etcd, etcd_service_error, first_error,
}
use cluster_api_control_plan.Etcd.Membership.{
  new_etcd_membership, with_machines, present_names, unowned, verify_pending, verify,
  compare_etcd_members,
}
use cluster_api_control_plan.Etcd.Names.{
  node_names_for_machine, normalized_names, etcd_member_names, etcd_member_matches_machine,
  find_etcd_member,
}
use cluster_api_control_plan.Etcd.Check.{
  etcd_healthcheck, evaluate_machines, evaluate_all, evaluate, check_messages, check_message,
  count_message, excluded_machines,
}
use cluster_api_control_plan.Etcd.Check.Passed.{IsHealthy, etcd_healthcheck-IsHealthy}
use cluster_api_control_plan.Samples.{cp_a, cp_b, cp_c, dial}

abbrev machines : List Machine
machines = cp_a ∷ cp_b ∷ cp_c ∷ []

passes : (etcd_healthcheck dial machines).1 ≡ none
unfolding etcd_healthcheck evaluate_machines evaluate_all evaluate check_messages check_message
    count_message excluded_machines health_checkable probe_etcd etcd_service_error first_error
    new_etcd_membership with_machines present_names unowned verify_pending verify
    compare_etcd_members node_names_for_machine normalized_names etcd_member_names
    etcd_member_matches_machine find_etcd_member insert lookup
passes = refl

all_healthy : (etcd_healthcheck dial machines).0.healthy ≡ 3
unfolding etcd_healthcheck evaluate_machines evaluate_all evaluate check_messages check_message
    count_message excluded_machines health_checkable probe_etcd etcd_service_error first_error
    new_etcd_membership with_machines present_names unowned verify_pending verify
    compare_etcd_members node_names_for_machine normalized_names etcd_member_names
    etcd_member_matches_machine find_etcd_member insert lookup
all_healthy = refl

etcd_healthcheck-IsHealthy_example :
    (1 ≤ length (health_checkable machines))
    × All (IsHealthy dial machines (health_checkable machines)) (health_checkable machines)
etcd_healthcheck-IsHealthy_example = etcd_healthcheck-IsHealthy dial machines (omega arith) passes
