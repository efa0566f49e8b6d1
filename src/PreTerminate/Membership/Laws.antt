-- ===== src/PreTerminate/Membership/Laws.antt =====
-- When the handler changes etcd's membership, and when it releases the hook.
use cluster_api_control_plan.Base.{
  ℕ, ◌-◌, ◌*◌, ◌≤◌, ◌<◌, ◌≡◌, inl, inr, Bool, true, false, Option, none, some, List, count, length,
  leb, Result, ok, err, arith, refl, Bool-cases, Option-cases, say, wrap,
}
use cluster_api_control_plan.Objects.{Machine, Member, ControlPlaneObject, Cluster}
use cluster_api_control_plan.Talos.{EtcdCalls, Dial}
use cluster_api_control_plan.Etcd.Names.{identify_etcd_member}
use cluster_api_control_plan.PreTerminate.Hook.{Env, stamp_etcd_cleanup_observed_at}
use cluster_api_control_plan.PreTerminate.Membership.{
  select_etcd_peer, etcd_healthy_on, candidate_voters, quorum_after_removal, list_etcd_members,
  resolve_member, resolve_with_client, resolve_with_peer, resolve, is_waiting,
  reconcile_hook_for_machine,
}
use cluster_api_control_plan.PreTerminate.Membership.Calm.{
  and_then_calm, release_with_event_calm, fail_open_or_retry_calm, hold_for_quorum_calm, stamp_calm,
  changes_etcd,
}

module _ (env : Env) (dial : Dial) (owned : List Machine) where
  -- A peer answered a member list in which the machine's member was identified, and a majority of
  -- the members that stay is healthy.
  pub record IsQuorate (victim : Machine) : Type 0 where
    pub peer : Machine
    pub client : EtcdCalls
    pub members : List Member
    pub member : Member
    pub chosen : select_etcd_peer owned victim ≡ some peer
    pub reached : dial peer ≡ ok client
    pub listed : list_etcd_members client ≡ ok members
    pub identified : identify_etcd_member members victim owned ≡ (some member, true)
    pub majority :
        length members - 1 < 2 * count (etcd_healthy_on dial) (candidate_voters owned victim)

  quorum-none :
      (victim : Machine) (n : ℕ)
      → quorum_after_removal dial owned victim n ≡ none
      → n - 1 < 2 * count (etcd_healthy_on dial) (candidate_voters owned victim)
  unfolding quorum_after_removal
  quorum-none victim n h = ground arith

  resolve_member_quorum :
      (peer : Machine) (c : EtcdCalls) (members : List Member) (i : Option Member × Bool)
      (victim : Machine)
      → changes_etcd (resolve_member env dial owned peer c members i victim).effects ≡ true
      → (member : Member) × (i ≡ (some member, true))
        × (quorum_after_removal dial owned victim (length members) ≡ none)
  unfolding resolve_member
  resolve_member_quorum peer c members (member, false) victim h = absurd (
      ground (
        arith,
        release_with_event_calm env "EtcdCleanupOrphaned"
            (say "the etcd member of the machine, if any, could not be identified") victim,
      ))
  resolve_member_quorum peer c members (none, true) victim h = absurd (
      ground (
        arith,
        release_with_event_calm env "EtcdCleanupSkipped"
            (say "machine is no longer an etcd member, skipping etcd member removal") victim,
      ))
  resolve_member_quorum peer c members (some member, true) victim h =
      elim (Option-cases (quorum_after_removal dial owned victim (length members))) [
        | inl enough ↦ (member, refl, enough)
        | inr (s, short) ↦ absurd (ground (arith, hold_for_quorum_calm env dial member s victim))
      ]

  with_client_quorum :
      (peer : Machine) (c : EtcdCalls) (victim : Machine)
      → changes_etcd (resolve_with_client env dial owned peer c victim).effects ≡ true
      → (members : List Member) × (member : Member) × (list_etcd_members c ≡ ok members)
        × (identify_etcd_member members victim owned ≡ (some member, true))
        × (quorum_after_removal dial owned victim (length members) ≡ none)
  unfolding resolve_with_client
  with_client_quorum peer c victim h = from (list_etcd_members c) refl
    where
      from :
          (r : Result (List Member))
          → list_etcd_members c ≡ r
          → (members : List Member) × (member : Member) × (list_etcd_members c ≡ ok members)
            × (identify_etcd_member members victim owned ≡ (some member, true))
            × (quorum_after_removal dial owned victim (length members) ≡ none)
      from (err e) p = absurd (
          ground (
            arith,
            fail_open_or_retry_calm env (wrap "failed to list etcd members via machine" peer.name e)
                victim,
          ))
      from (ok members) p =
          let (member, i, q) =
            resolve_member_quorum peer c members (identify_etcd_member members victim owned) victim
              (ground arith) in
          (members, member, p, i, q)

  with_peer_IsQuorate :
      (victim : Machine)
      → changes_etcd
          (resolve_with_peer env dial owned (select_etcd_peer owned victim) victim).effects
        ≡ true
      → IsQuorate victim
  unfolding resolve_with_peer
  with_peer_IsQuorate victim h = elim (Option-cases (select_etcd_peer owned victim)) [
    | inl nobody ↦ absurd (
        ground (
          arith,
          fail_open_or_retry_calm env
              (say "no healthy control plane machine is available to verify etcd membership")
              victim,
        ))
    | inr (peer, chosen) ↦ from peer chosen (dial peer) refl
  ]
    where
      from :
          (peer : Machine)
          → select_etcd_peer owned victim ≡ some peer
          → (r : Result EtcdCalls) → dial peer ≡ r
          → IsQuorate victim
      from peer chosen (err e) p = absurd (
          ground (
            arith,
            fail_open_or_retry_calm env
                (wrap "failed to connect to control plane machine" peer.name e) victim,
          ))
      from peer chosen (ok c) p =
          let (members, member, listed, i, q) = with_client_quorum peer c victim (ground arith) in
          record {
            peer = peer;
            client = c;
            members = members;
            member = member;
            chosen = chosen;
            reached = p;
            listed = listed;
            identified = i;
            majority = quorum-none victim (length members) q;
          }

  -- What has to hold for the handler to change etcd's membership.
  pub record IsAuthorized (cluster : Cluster) (tcp : ControlPlaneObject) (victim : Machine)
      : Type 0 where
    pub cluster_stays : cluster.deletion ≡ none
    pub control_plane_stays : tcp.deletion ≡ none
    pub several : 2 ≤ length owned
    pub quorate : IsQuorate victim

  resolve-IsAuthorized :
      (cluster : Cluster) (tcp : ControlPlaneObject) (victim : Machine)
      → changes_etcd (resolve env dial cluster tcp owned victim).effects ≡ true
      → IsAuthorized cluster tcp victim
  unfolding resolve
  resolve-IsAuthorized cluster tcp victim h = elim (Option-cases cluster.deletion) [
    | inr (t, gone) ↦ absurd (
        ground (
          arith,
          release_with_event_calm env "EtcdCleanupSkipped"
              (say "cluster is being deleted, skipping etcd member removal") victim,
        ))
    | inl c ↦ elim (Option-cases tcp.deletion) [
      | inr (t, gone) ↦ absurd (
          ground (
            arith,
            release_with_event_calm env "EtcdCleanupSkipped"
                (say "control plane is being deleted, skipping etcd member removal") victim,
          ))
      | inl p ↦ elim (Bool-cases (leb (length owned) 1)) [
        | inl last ↦ absurd (
            ground (
              arith,
              release_with_event_calm env "EtcdCleanupSkipped"
                  (say "last control plane machine, skipping etcd member removal") victim,
            ))
        | inr many ↦ record {
          cluster_stays = c;
          control_plane_stays = p;
          several = ground arith;
          quorate = with_peer_IsQuorate victim (ground arith);
        }
      ]
    ]
  ]

  -- The handler changes etcd's membership only for a machine that waits at the pre-terminate phase,
  -- while neither the cluster nor the control plane is being deleted and another machine is left;
  -- and only when a peer's member list identifies the machine's member and a majority of the members
  -- that stay is healthy.
  pub reconcile_hook_for_machine-IsAuthorized :
      (cluster : Cluster) (tcp : ControlPlaneObject) (victim : Machine)
      → changes_etcd (reconcile_hook_for_machine env dial cluster tcp owned victim).effects ≡ true
      → (is_waiting victim ≡ true)
        × IsAuthorized cluster tcp (stamp_etcd_cleanup_observed_at env victim).machine
  unfolding reconcile_hook_for_machine
  reconcile_hook_for_machine-IsAuthorized cluster tcp victim h =
      elim (and_then_calm (stamp_etcd_cleanup_observed_at env victim)
        (resolve env dial cluster tcp owned) (stamp_calm env victim)) [
          | inl calm ↦ absurd (ground arith)
          | inr same ↦ (
            ground arith,
            resolve-IsAuthorized cluster tcp (stamp_etcd_cleanup_observed_at env victim).machine
                (ground arith),
          )
        ]
