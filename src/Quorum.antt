-- ===== src/Quorum.antt =====
-- controllers/remediation.go: whether etcd keeps quorum when a member is removed or added, judged
-- from what the etcd health check recorded on each machine.
mod Removal
mod Addition
mod Recorded
mod Tests
use cluster_api_control_plan.Base.{
  ℕ, suc, ◌+◌, ◌/◌, Bool, true, false, ◌&&◌, not, Option, none, some, List, [], ◌∷◌, ◌++◌, String,
  any, filter, ltb, leb, if◌then◌else◌, is_some, deref, Map, lookup, insert, Message, Error, counts,
  say, Result, ok, err,
}
use cluster_api_control_plan.Objects.{Machine, Member, same_name, has_node}
use cluster_api_control_plan.Etcd.Names.{etcd_member_matches_machine, others_than}

-- etcdMachineStatus
pub record MachineStatus : Type 0 where
  pub healthy : Bool
  pub members : List Member
  pub list_err : Option Error

abbrev pub Statuses : Type 0
Statuses = Map MachineStatus

abbrev pub no_status : MachineStatus
no_status = record { healthy = false; members = []; list_err = none }

-- `etcdStatuses[name]`: a missing entry is the zero status.
unfoldable pub status_of : Statuses → String → MachineStatus
status_of statuses name = deref (lookup name statuses) no_status

-- `healthy[name]`
unfoldable pub is_healthy : Map Bool → String → Bool
is_healthy healthy name = deref (lookup name healthy) false

-- The inner loop: some healthy machine, other than the one left out, runs the member.
unfoldable pub is_backed : Map Bool → List Machine → Member → Bool
unfolding is_healthy
is_backed healthy machines member =
    any (λ m. is_healthy healthy m.name && etcd_member_matches_machine member m) machines

-- The variables of the loop of canSafelyRemoveEtcdMember; `found` says whether targetMember is set.
pub record Tally : Type 0 where
  pub learners : ℕ
  pub found : Bool
  pub voting : ℕ
  pub healthy : ℕ

abbrev pub no_tally : Tally
no_tally = record { learners = 0; found = false; voting = 0; healthy = 0 }

module _ (target : Machine) (machines : List Machine) (healthy : Map Bool) where
  -- One turn of the loop.
  unfoldable pub tally_member : Tally → Member → Tally
  unfolding is_backed others_than
  tally_member t member =
      if member.is_learner
      then record t { learners = t.learners + 1 }
      else if not t.found && etcd_member_matches_machine member target
      then record t { found = true }
      else record t {
        voting = t.voting + 1;
        healthy =
            if is_backed healthy (others_than target machines) member
            then t.healthy + 1
            else t.healthy;
      }

  unfoldable pub tally_members : Tally → List Member → Tally
  unfolding tally_member
  tally_members t [] = t
  tally_members t (member ∷ members) = tally_members (tally_member t member) members

  -- What follows the loop.
  unfoldable pub judge_removal : Tally → Bool × Message
  unfolding is_healthy
  judge_removal t =
      let current_voting = if t.found then t.voting + 1 else t.voting in
      let current_healthy =
        if t.found && is_healthy healthy target.name then t.healthy + 1 else t.healthy in
      if ltb 0 t.learners
      then (
        false,
        counts "etcd members are learners that did not join the cluster yet" t.learners 0 0,
      )
      else if ltb current_healthy (current_voting / 2 + 1)
      then (
        false,
        counts "etcd members are healthy, removing a member needs" current_healthy current_voting
            (current_voting / 2 + 1),
      )
      else if ltb t.healthy (t.voting / 2 + 1)
      then (
        false,
        counts "remaining etcd members would be healthy, quorum needs" t.healthy t.voting
            (t.voting / 2 + 1),
      )
      else (true, counts "remaining etcd members are healthy" t.healthy t.voting 0)

unfoldable pub can_safely_remove_etcd_member :
    List Member → Machine → List Machine → Map Bool → Bool × Message
unfolding tally_members judge_removal
can_safely_remove_etcd_member members target machines healthy =
    judge_removal target machines healthy (tally_members target machines healthy no_tally members)

module _ (machines : List Machine) (healthy : Map Bool) where
  unfoldable pub count_member : Tally → Member → Tally
  unfolding is_backed
  count_member t member =
      if member.is_learner then record t { learners = t.learners + 1 } else record t {
        voting = t.voting + 1;
        healthy = if is_backed healthy machines member then t.healthy + 1 else t.healthy;
      }

  unfoldable pub count_members : Tally → List Member → Tally
  unfolding count_member
  count_members t [] = t
  count_members t (member ∷ members) = count_members (count_member t member) members

unfoldable pub judge_addition : Tally → Bool × Message
judge_addition t =
    let target_voting = t.voting + 1 in
    let target_healthy = if leb t.voting 1 then t.healthy + 1 else t.healthy in
    if ltb 0 t.learners
    then (
      false,
      counts "etcd members are learners that did not join the cluster yet" t.learners 0 0,
    )
    else if ltb target_healthy (target_voting / 2 + 1)
    then (
      false,
      counts "etcd members would be healthy with the new member, quorum needs" target_healthy
          target_voting (target_voting / 2 + 1),
    )
    else (
      true,
      counts "etcd members would be healthy with the new member" target_healthy target_voting 0,
    )

unfoldable pub can_safely_add_etcd_member_to :
    List Member → List Machine → Map Bool → Bool × Message
unfolding count_members judge_addition
can_safely_add_etcd_member_to members machines healthy =
    judge_addition (count_members machines healthy no_tally members)

abbrev is_nil : List Member → Bool
is_nil [] = true
is_nil _ = false

abbrev either_error : Option Error → Option Error → Option Error
either_error none e = e
either_error (some e) _ = some e

module _ (statuses : Statuses) where
  -- The first loop of recordedEtcdFrom.
  unfoldable pub healthy_from : Map Bool → List Machine → Map Bool
  unfolding status_of
  healthy_from healthy [] = healthy
  healthy_from healthy (m ∷ ms) =
      healthy_from (insert m.name (has_node m && (status_of statuses m.name).healthy) healthy) ms

  -- The loop over the candidates, with the last listing error.
  unfoldable pub first_list : Map Bool → Option Error → List Machine → Result (List Member)
  unfolding status_of is_healthy
  first_list healthy e [] =
      err (deref e (say "no healthy etcd member reported the etcd member list"))
  first_list healthy e (m ∷ ms) =
      let status = status_of statuses m.name in
      let rest = first_list healthy (either_error status.list_err e) ms in
      if not (is_healthy healthy m.name)
      then first_list healthy e ms
      else if is_nil status.members
      then rest
      else ok status.members

  -- The machine `last` is asked after all others.
  unfoldable pub asked_last : Option Machine → List Machine → List Machine
  unfolding others_than
  asked_last none machines = machines
  asked_last (some last) machines = others_than last machines ++ last ∷ []

  unfoldable pub recorded_etcd_from :
      List Machine → Option Machine → Result (List Member) × Map Bool
  unfolding healthy_from first_list asked_last
  recorded_etcd_from machines last =
      let healthy = healthy_from [] machines in
      (first_list healthy none (asked_last last machines), healthy)

  -- The verdict and its details, or why there is none.
  unfoldable pub can_safely_remediate_machine : Machine → List Machine → Result (Bool × Message)
  unfolding recorded_etcd_from can_safely_remove_etcd_member
  can_safely_remediate_machine target machines =
      let (members, healthy) = recorded_etcd_from machines (some target) in
      elim members [
        | err e ↦ err e
        | ok list ↦ ok (can_safely_remove_etcd_member list target machines healthy)
      ]

  unfoldable pub can_safely_add_etcd_member : List Machine → Result (Bool × Message)
  unfolding recorded_etcd_from can_safely_add_etcd_member_to
  can_safely_add_etcd_member machines =
      let (members, healthy) = recorded_etcd_from machines none in
      elim members [
        | err e ↦ err e
        | ok list ↦ ok (can_safely_add_etcd_member_to list machines healthy)
      ]
