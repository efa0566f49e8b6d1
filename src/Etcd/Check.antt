-- ===== src/Etcd/Check.antt =====
-- controllers/etcd.go, etcdHealthcheck: the probes are evaluated in the order of the machines. Each
-- probe is what `probe_etcd` makes of one machine, so the order in which they finish has no effect.
mod Laws
mod Passed
mod Tests
use cluster_api_control_plan.Base.{
  ℕ, ◌+◌, ◌-◌, Bool, true, false, ◌&&◌, not, Option, none, some, List, [], ◌∷◌, String, any, filter,
  count, length, to_lower, leb, if◌then◌else◌, max, Message, Error, Result, ok, err, wrap, insert,
  counts,
}
use cluster_api_control_plan.Objects.{Machine, Member, same_name}
use cluster_api_control_plan.Talos.{MemberMessage, Dial}
use cluster_api_control_plan.Quorum.{MachineStatus, Statuses, no_status}
use cluster_api_control_plan.Etcd.Names.{etcd_member_names, contains, find_etcd_member}
use cluster_api_control_plan.Etcd.Membership.{
  EtcdMembership, new_etcd_membership, verify, compare_etcd_members,
}
use cluster_api_control_plan.Etcd.Health.{
  EtcdHealth, health_checkable, Probe, not_inspected, not_running, running, probe_etcd,
}

-- The variables of the loop: the health, the list of the previous node, and the first error.
pub record Progress : Type 0 where
  pub health : EtcdHealth
  pub previous : Option (String × List (List ℕ))
  pub first_error : Option Error

abbrev is_learner_of : Option Member → Bool
is_learner_of none = false
is_learner_of (some m) = m.is_learner

abbrev voting_members : List Member → ℕ
voting_members members = count (λ (m : Member). not m.is_learner) members

abbrev excluded_members : List (List ℕ) → List Member → ℕ
excluded_members names members =
    count (λ (m : Member). not m.is_learner && contains names (to_lower m.hostname)) members

-- What a message does to the counts. A client that points to one machine answers with at most one
-- message, so a machine's learner is taken off `healthy` once, and the subtraction is exact.
unfoldable pub count_message : List (List ℕ) → Machine → MemberMessage → EtcdHealth → EtcdHealth
count_message excluded m msg h = record h {
  members = max h.members (voting_members msg.members);
  excluded = max h.excluded (excluded_members excluded msg.members);
  healthy = if is_learner_of (find_etcd_member msg.members m) then h.healthy - 1 else h.healthy;
}

abbrev against_previous : String → List (List ℕ) → Option (String × List (List ℕ)) → Option Error
against_previous node names none = none
against_previous node names (some (other, others)) = compare_etcd_members node names other others

-- The loop over the messages ends at the first error.
abbrev pub go_on :
    Progress
    → (List (List ℕ) → Progress × Option Error)
    → Result (List (List ℕ))
    → Progress × Option Error
go_on s rest (err e) = (s, some e)
go_on s rest (ok names) = rest names

module _ (membership : EtcdMembership) (excluded : List (List ℕ)) where
  -- The checks of a message, on the list that the previous node reported.
  unfoldable pub check_message :
      Option (String × List (List ℕ)) → MemberMessage → Result (List (List ℕ))
  check_message previous msg = elim (verify membership msg.hostname msg.members) [
    | err e ↦ err e
    | ok names ↦ elim (against_previous msg.hostname names previous) [
      | some e ↦ err e
      | none ↦ ok names
    ]
  ]

  unfoldable pub check_messages : Machine → Progress → List MemberMessage → Progress × Option Error
  check_messages m s [] = (s, none)
  check_messages m s (msg ∷ msgs) =
      let counted = record s { health = count_message excluded m msg s.health } in
      go_on counted
        (λ names. check_messages m (record counted { previous = some (msg.hostname, names) }) msgs)
        (check_message s.previous msg)

  abbrev first_members : List MemberMessage → List Member
  first_members [] = []
  first_members (msg ∷ _) = msg.members

  abbrev set_status : Machine → MachineStatus → EtcdHealth → EtcdHealth
  set_status m status h = record h { statuses = insert m.name status h.statuses }

  abbrev inspect : EtcdHealth → EtcdHealth
  inspect h = record h { inspected = h.inspected + 1 }

  -- A machine whose service is healthy.
  abbrev find_healthy : Machine → MachineStatus → EtcdHealth → EtcdHealth
  find_healthy m status h = set_status m status (record h { healthy = h.healthy + 1 })

  -- The function literal of the loop.
  unfoldable pub evaluate : Machine → Probe → Progress → Progress × Option Error
  unfolding check_messages
  evaluate m (not_inspected e) s = (record s { health = set_status m no_status s.health }, some e)
  evaluate m (not_running e) s =
      (record s { health = inspect (set_status m no_status s.health) }, some e)
  evaluate m (running (err e)) s = (
    record s {
      health =
          find_healthy m (record { healthy = true; members = []; list_err = some e })
            (inspect s.health);
    },
    some e,
  )
  evaluate m (running (ok msgs)) s =
      check_messages m
        (record s {
          health =
              find_healthy m
                (record { healthy = true; members = first_members msgs; list_err = none })
                (inspect s.health);
        })
        msgs

  abbrev keep_first : Machine → Progress × Option Error → Progress
  keep_first m (s, none) = s
  keep_first m (s, some e) = elim s.first_error [
    | some _ ↦ s
    | none ↦ record s { first_error = some (wrap "error checking etcd health on machine" m.name e) }
  ]

  unfoldable pub evaluate_all : (Machine → Probe) → List Machine → Progress → Progress
  evaluate_all probe [] s = s
  evaluate_all probe (m ∷ ms) s = evaluate_all probe ms (keep_first m (evaluate m (probe m) s))

unfoldable pub excluded_machines : List Machine → List Machine → List Machine
excluded_machines owned machines = filter (λ m. not (any (λ n. same_name n m) machines)) owned

abbrev pub no_health : ℕ → EtcdHealth
no_health machines = record {
  machines = machines;
  inspected = 0;
  healthy = 0;
  members = 0;
  excluded = 0;
  statuses = [];
}

abbrev pub start : ℕ → Progress
start machines = record { health = no_health machines; previous = none; first_error = none }

unfoldable pub evaluate_machines : Dial → List Machine → List Machine → Progress
evaluate_machines dial owned machines =
    evaluate_all (new_etcd_membership owned machines)
      (etcd_member_names (excluded_machines owned machines)) (probe_etcd dial) machines
      (start (length machines))

unfoldable pub etcd_healthcheck : Dial → List Machine → EtcdHealth × Option Error
unfolding evaluate_machines
etcd_healthcheck dial owned =
    let machines = health_checkable owned in
    if leb 1 (length owned) && leb (length machines) 0
    then (
      no_health 0,
      some (counts "all owned machines are excluded from the etcd health check" (length owned) 0 0),
    )
    else let s = evaluate_machines dial owned machines in (s.health, s.first_error)
