-- ===== src/PreTerminate/Membership.antt =====
-- controllers/preterminate.go: how the handler of one deleting machine resolves its etcd membership.
mod Calm
mod Laws
mod Release
mod Tests
use cluster_api_control_plan.Base.{
  ℕ, suc, ◌+◌, ◌-◌, ◌/◌, Bool, true, false, ◌&&◌, ◌||◌, not, Option, none, some, List, [], ◌∷◌,
  ◌++◌, String, any, count, filter, length, leb, ltb, if◌then◌else◌, is_some, lookup, str_eq,
  Message, Error, Result, ok, err, wrap, say, about, counts, aggregate,
}
use cluster_api_control_plan.Objects.{
  Machine, Member, ControlPlaneObject, Cluster, Condition, is_holds, is_deleting, is_leaving,
  has_node, same_name,
}
use cluster_api_control_plan.Talos.{Service, MemberMessage, EtcdCalls, Dial}
use cluster_api_control_plan.Etcd.Names.{identify_etcd_member}
use cluster_api_control_plan.PreTerminate.Hook.{
  Effect, forfeited, left, removed, event, Env, Step, Return, and_then, finish, fail,
  release_with_event, fail_open_or_retry, stamp_etcd_cleanup_observed_at,
  clear_etcd_cleanup_observed_at, mark_etcd_leaving, pre_terminate_requeue_after, patched,
}

-- The loop of selectEtcdPeer, with its fallback.
unfoldable pub peer_from : Machine → Option Machine → List Machine → Option Machine
peer_from victim fallback [] = fallback
peer_from victim fallback (m ∷ ms) =
    let skip = peer_from victim fallback ms in
    let keep = peer_from victim (if is_some fallback then fallback else some m) ms in
    if same_name m victim || is_deleting m || is_leaving m
    then skip
    else if has_node m
    then some m
    else keep

unfoldable pub select_etcd_peer : List Machine → Machine → Option Machine
unfolding peer_from
select_etcd_peer owned victim = peer_from victim none owned

-- etcdHealthyOn
unfoldable pub etcd_healthy_on : Dial → Machine → Bool
etcd_healthy_on dial m = elim (dial m) [
  | err _ ↦ false
  | ok c ↦ elim c.service_info [ err _ ↦ false | ok services ↦ any (λ s. s.healthy) services ]
]

-- The machines whose members may vote without the victim.
unfoldable pub candidate_voters : List Machine → Machine → List Machine
candidate_voters owned victim = filter (λ m. not (same_name m victim) && not (is_leaving m)) owned

-- quorumShortfall
pub record Shortfall : Type 0 where
  pub healthy : ℕ
  pub members : ℕ
  pub quorum : ℕ

-- It is called with a member list that holds the victim's member, so the subtraction is exact.
unfoldable pub quorum_after_removal : Dial → List Machine → Machine → ℕ → Option Shortfall
unfolding etcd_healthy_on candidate_voters
quorum_after_removal dial owned victim member_count =
    let healthy = count (etcd_healthy_on dial) (candidate_voters owned victim) in
    let members = member_count - 1 in
    if leb (members / 2 + 1) healthy
    then none
    else some (record { healthy = healthy; members = members; quorum = members / 2 + 1 })

unfoldable pub all_members : List MemberMessage → List Member
all_members [] = []
all_members (m ∷ ms) = m.members ++ all_members ms

unfoldable pub list_etcd_members : EtcdCalls → Result (List Member)
unfolding all_members
list_etcd_members c = elim c.member_list [ err e ↦ err e | ok ms ↦ ok (all_members ms) ]

-- The first service that has not finished is asked to hand over and to leave.
unfoldable pub leave_by : EtcdCalls → String → List Service → List Effect × Option Error
leave_by c name [] = ([], some (about "etcd is not running on machine" name))
leave_by c name (s ∷ ss) =
    if str_eq s.state "Finished" then leave_by c name ss else elim c.forfeit_leadership [
      | some e ↦ (forfeited name ∷ [], some e)
      | none ↦ (forfeited name ∷ left name ∷ [], c.leave_cluster)
    ]

unfoldable pub etcd_leave_from_victim : Dial → Machine → List Effect × Option Error
unfolding leave_by
etcd_leave_from_victim dial victim = elim (dial victim) [
  | err e ↦ ([], some e)
  | ok c ↦ elim c.service_info [
    | err e ↦ ([], some e)
    | ok services ↦ leave_by c victim.name services
  ]
]

abbrev before : List Effect → Return → Return
before effects r = record r { effects = effects ++ r.effects }

abbrev try_both : Error → Error → Error
try_both = Message.both

abbrev at_pre_terminate : Option Condition → Bool
at_pre_terminate none = false
at_pre_terminate (some c) = is_holds c.status && str_eq c.reason "WaitingForPreTerminateHook"

-- The core Machine controller waits for the pre-terminate hooks.
unfoldable pub is_waiting : Machine → Bool
is_waiting m = at_pre_terminate (lookup "Deleting" m.conditions)

module _ (env : Env) (dial : Dial) where
  -- The member leaves by itself, or else is removed through the peer.
  unfoldable pub remove_member : Machine → EtcdCalls → Member → Machine → Return
  remove_member peer c member victim =
      let (did, failure) = etcd_leave_from_victim dial victim in
      before did (elim failure [
        | none ↦
            release_with_event env "EtcdMemberLeft"
              (about "etcd member left the cluster" member.hostname) victim
        | some leave_err ↦ before (removed member.id ∷ []) (elim (c.remove_member member.id) [
          | some remove_err ↦ fail_open_or_retry env (try_both leave_err remove_err) victim
          | none ↦
              release_with_event env "EtcdMemberRemovedViaPeer"
                (Message.both (about "etcd member removed" member.hostname)
                  (about "via machine" peer.name))
                victim
        ])
      ])

  -- holdForQuorum
  unfoldable pub hold_for_quorum : Member → Shortfall → Machine → Return
  hold_for_quorum member s victim = and_then (clear_etcd_cleanup_observed_at env victim) (λ m.
      record {
        machine = m;
        effects =
            event "EtcdQuorumAtRisk" (
              Message.both (about "removing etcd member would leave too few" member.hostname)
                (counts "healthy members, below the quorum" s.healthy s.members s.quorum))
            ∷ [];
        requeue_after = pre_terminate_requeue_after;
        error = none;
      })

  -- What follows the identification of the member.
  unfoldable pub resolve_member :
      List Machine → Machine → EtcdCalls → List Member → Option Member × Bool → Machine → Return
  resolve_member owned peer c members (member, false) victim =
      release_with_event env "EtcdCleanupOrphaned"
        (say "the etcd member of the machine, if any, could not be identified") victim
  resolve_member owned peer c members (none, true) victim =
      release_with_event env "EtcdCleanupSkipped"
        (say "machine is no longer an etcd member, skipping etcd member removal") victim
  resolve_member owned peer c members (some member, true) victim =
      elim (quorum_after_removal dial owned victim (length members)) [
        | some shortfall ↦ hold_for_quorum member shortfall victim
        | none ↦ and_then (mark_etcd_leaving env victim) (remove_member peer c member)
      ]

  unfoldable pub resolve_with_client : List Machine → Machine → EtcdCalls → Machine → Return
  resolve_with_client owned peer c victim = elim (list_etcd_members c) [
    | err e ↦
        fail_open_or_retry env (wrap "failed to list etcd members via machine" peer.name e) victim
    | ok members ↦
        resolve_member owned peer c members (identify_etcd_member members victim owned) victim
  ]

  unfoldable pub resolve_with_peer : List Machine → Option Machine → Machine → Return
  resolve_with_peer owned none victim =
      fail_open_or_retry env
        (say "no healthy control plane machine is available to verify etcd membership") victim
  resolve_with_peer owned (some peer) victim = elim (dial peer) [
    | err e ↦
        fail_open_or_retry env (wrap "failed to connect to control plane machine" peer.name e)
          victim
    | ok c ↦ resolve_with_client owned peer c victim
  ]

  -- What follows the anchoring of the deadline.
  unfoldable pub resolve : Cluster → ControlPlaneObject → List Machine → Machine → Return
  resolve cluster tcp owned victim =
      if is_some cluster.deletion
      then release_with_event env "EtcdCleanupSkipped"
          (say "cluster is being deleted, skipping etcd member removal") victim
      else if is_some tcp.deletion
      then release_with_event env "EtcdCleanupSkipped"
          (say "control plane is being deleted, skipping etcd member removal") victim
      else if leb (length owned) 1
      then release_with_event env "EtcdCleanupSkipped"
          (say "last control plane machine, skipping etcd member removal") victim
      else resolve_with_peer owned (select_etcd_peer owned victim) victim

  unfoldable pub reconcile_hook_for_machine :
      Cluster → ControlPlaneObject → List Machine → Machine → Return
  reconcile_hook_for_machine cluster tcp owned victim =
      if not (is_waiting victim)
      then record {
        machine = victim;
        effects = [];
        requeue_after = pre_terminate_requeue_after;
        error = none;
      }
      else and_then (stamp_etcd_cleanup_observed_at env victim) (resolve cluster tcp owned)
