-- ===== src/Etcd/Health.antt =====
-- controllers/etcd.go: what the etcd health check observes on each machine, and what it says about quorum.
mod Laws
mod Tests
use cluster_api_control_plan.Base.{
  ℕ, suc, ◌+◌, ◌-◌, ◌/◌, Bool, true, false, ◌&&◌, ◌||◌, not, Option, none, some, List, [], ◌∷◌,
  ◌++◌, String, any, filter, count, length, to_lower, leb, ltb, ◌==◌, if◌then◌else◌, str_eq, max,
  Message, Error, Result, ok, err, say, about, wrap, insert, is_some, counts, Map,
}
use cluster_api_control_plan.Objects.{Machine, Member, is_deleting, is_leaving, same_name}
use cluster_api_control_plan.Talos.{Service, MemberMessage, EtcdCalls, Dial}
use cluster_api_control_plan.Quorum.{MachineStatus, Statuses}
use cluster_api_control_plan.Etcd.Names.{etcd_member_names, contains, find_etcd_member}
use cluster_api_control_plan.Etcd.Membership.{
  EtcdMembership, new_etcd_membership, verify, compare_etcd_members,
}

-- What the check observed.
pub record EtcdHealth : Type 0 where
  pub machines : ℕ
  pub inspected : ℕ
  pub healthy : ℕ
  pub members : ℕ
  pub excluded : ℕ
  pub statuses : Statuses

unfoldable pub quorum : EtcdHealth → ℕ
quorum h = (if h.members == 0 then h.machines else h.members) / 2 + 1

unfoldable pub has_quorum : EtcdHealth → Bool
unfolding quorum
has_quorum h = leb (quorum h) h.healthy

-- The check never inspects more machines than there are, so the subtraction is exact.
unfoldable pub may_have_quorum : EtcdHealth → Bool
unfolding quorum
may_have_quorum h = leb (quorum h) (h.healthy + (h.machines - h.inspected) + h.excluded)

-- The reasons of the EtcdClusterHealthy condition.
pub data HealthReason : Type 0 where
  inspection_failed unhealthy quorum_lost : HealthReason

unfoldable pub condition_reason : EtcdHealth → HealthReason
unfolding has_quorum may_have_quorum
condition_reason h =
    if h.inspected == 0
    then inspection_failed
    else if has_quorum h
    then unhealthy
    else if may_have_quorum h
    then inspection_failed
    else quorum_lost

-- health.go, healthCheckable: the machines that are neither being deleted nor leaving etcd.
unfoldable pub health_checkable : List Machine → List Machine
health_checkable machines = filter (λ m. not (is_deleting m) && not (is_leaving m)) machines

-- The state of the last recorded event.
abbrev last_state : String → List String → String
last_state state [] = state
last_state _ (s ∷ ss) = last_state s ss

abbrev node_of : String → String → String
node_of machine_name hostname = if str_eq hostname "" then machine_name else hostname

abbrev judge_state : String → List String → Bool → Option Error
judge_state node [] healthy = some (about "no events recorded yet for service etcd" node)
judge_state node (s ∷ ss) healthy =
    if not (str_eq (last_state s ss) "Running")
    then some (about "service etcd not in expected state" node)
    else if not healthy
    then some (about "service is not healthy: etcd" node)
    else none

abbrev pub service_error : String → Service → Option Error
service_error machine_name s = judge_state (node_of machine_name s.hostname) s.events s.healthy

unfoldable pub first_error : String → List Service → Option Error
first_error machine_name [] = none
first_error machine_name (s ∷ ss) =
    let rest = first_error machine_name ss in
    elim (service_error machine_name s) [ some e ↦ some e | none ↦ rest ]

unfoldable pub etcd_service_error : List Service → String → Option Error
unfolding first_error
etcd_service_error [] machine_name = some (about "service etcd not found" machine_name)
etcd_service_error (s ∷ ss) machine_name = first_error machine_name (s ∷ ss)

-- etcdMachineProbe: the machine could not be inspected, its service failed, or its member list,
-- which is only asked for when the service is healthy.
pub data Probe : Type 0 where
  not_inspected : Error → Probe
  not_running : Error → Probe
  running : Result (List MemberMessage) → Probe

unfoldable pub probe_etcd : Dial → Machine → Probe
probe_etcd dial m = elim (dial m) [
  | err e ↦ not_inspected e
  | ok c ↦ elim c.service_info [
    | err e ↦ not_inspected e
    | ok services ↦ elim (etcd_service_error services m.name) [
      | some e ↦ not_running e
      | none ↦ running c.member_list
    ]
  ]
]
