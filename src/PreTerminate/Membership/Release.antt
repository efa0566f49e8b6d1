-- ===== src/PreTerminate/Membership/Release.antt =====
-- Why the handler releases the hook: it never does so for want of quorum.
use cluster_api_control_plan.Base.{
  ◌≤◌, ◌≡◌, ◌≢◌, ◌⊎◌, inl, inr, Bool, true, false, Option, none, some, List, length, leb,
  lookup-insert, lookup-erase, Error, Message, Result, ok, err, arith, refl, sym, ap, ◌∙◌,
  Bool-cases, Option-cases, say, wrap,
}
use cluster_api_control_plan.Objects.{
  Machine, Member, ControlPlaneObject, Cluster, plain, time, etcd_leaving, whole_seconds,
}
use cluster_api_control_plan.Talos.{EtcdCalls, Dial}
use cluster_api_control_plan.Etcd.Names.{identify_etcd_member}
use cluster_api_control_plan.PreTerminate.Hook.{
  Env, Step, Return, and_then, fail_open_or_retry, is_overdue, is_hooked, pre_terminate_hook,
  observed_at_annotation, stamp_etcd_cleanup_observed_at, clear_etcd_cleanup_observed_at,
  mark_etcd_leaving,
}
use cluster_api_control_plan.PreTerminate.Membership.{
  select_etcd_peer, quorum_after_removal, list_etcd_members, etcd_leave_from_victim, Shortfall,
  remove_member, hold_for_quorum, resolve_member, resolve_with_client, resolve_with_peer, resolve,
  is_waiting, reconcile_hook_for_machine,
}

fail_open_overdue :
    (env : Env) (cause : Error) (m : Machine)
    → is_hooked m ≡ true
    → is_hooked (fail_open_or_retry env cause m).machine ≡ false
    → is_overdue env m ≡ true
unfolding fail_open_or_retry
fail_open_overdue env cause m h r = ground arith

mark_etcd_leaving-is_hooked :
    (env : Env) (m : Machine) → is_hooked (mark_etcd_leaving env m).machine ≡ is_hooked m
unfolding mark_etcd_leaving
mark_etcd_leaving-is_hooked env m =
    ground (arith, lookup-insert etcd_leaving pre_terminate_hook (plain "true") m.annotations)

mark_etcd_leaving-is_overdue :
    (env : Env) (m : Machine) → is_overdue env (mark_etcd_leaving env m).machine ≡ is_overdue env m
unfolding mark_etcd_leaving is_overdue
mark_etcd_leaving-is_overdue env m =
    ground (arith, lookup-insert etcd_leaving observed_at_annotation (plain "true") m.annotations)

stamp-is_hooked :
    (env : Env) (m : Machine)
    → is_hooked (stamp_etcd_cleanup_observed_at env m).machine ≡ is_hooked m
unfolding stamp_etcd_cleanup_observed_at
stamp-is_hooked env m = ground (
  arith,
  lookup-insert observed_at_annotation pre_terminate_hook (time (whole_seconds env.now))
      m.annotations,
)

hold_for_quorum-is_hooked :
    (env : Env) (dial : Dial) (member : Member) (s : Shortfall) (m : Machine)
    → is_hooked (hold_for_quorum env dial member s m).machine ≡ is_hooked m
unfolding hold_for_quorum clear_etcd_cleanup_observed_at and_then
hold_for_quorum-is_hooked env dial member s m =
    ground (arith, lookup-erase observed_at_annotation pre_terminate_hook m.annotations)

and_then-is_hooked :
    (s : Step) (k : Machine → Return)
    → is_hooked (and_then s k).machine ≡ false
    → is_hooked s.machine ≡ true
    → is_hooked (k s.machine).machine ≡ false
unfolding and_then
and_then-is_hooked s k r h = ground arith

module _ (env : Env) (dial : Dial) (owned : List Machine) where
  -- The member list that the peer of the machine answered with.
  pub record Listing (victim : Machine) : Type 0 where
    pub peer : Machine
    pub client : EtcdCalls
    pub members : List Member
    pub chosen : select_etcd_peer owned victim ≡ some peer
    pub reached : dial peer ≡ ok client
    pub listed : list_etcd_members client ≡ ok members

  -- Why the hook of a machine may be released.
  pub data MayRelease (cluster : Cluster) (tcp : ControlPlaneObject) (victim : Machine)
      : Type 0 where
    cluster_deleted : cluster.deletion ≢ none → MayRelease cluster tcp victim
    control_plane_deleted : tcp.deletion ≢ none → MayRelease cluster tcp victim
    last_machine : length owned ≤ 1 → MayRelease cluster tcp victim
    -- the peer's list says that there is no member, or does not tell
    no_member :
        (l : Listing victim)
        → ((identify_etcd_member l.members victim owned).0 ≡ none)
          ⊎ ((identify_etcd_member l.members victim owned).1 ≡ false)
        → MayRelease cluster tcp victim
    -- with a healthy majority of the others, the member left or was removed through the peer
    left_etcd :
        (l : Listing victim) (member : Member)
        → identify_etcd_member l.members victim owned ≡ (some member, true)
        → quorum_after_removal dial owned victim (length l.members) ≡ none
        → ((etcd_leave_from_victim dial (mark_etcd_leaving env victim).machine).1 ≡ none)
          ⊎ (l.client.remove_member member.id ≡ none)
        → MayRelease cluster tcp victim
    overdue : is_overdue env victim ≡ true → MayRelease cluster tcp victim

  remove_member_released :
      (peer : Machine) (c : EtcdCalls) (member : Member) (m : Machine)
      → is_hooked m ≡ true
      → is_hooked (remove_member env dial peer c member m).machine ≡ false
      → ((etcd_leave_from_victim dial m).1 ≡ none)
        ⊎ ((c.remove_member member.id ≡ none) ⊎ (is_overdue env m ≡ true))
  unfolding remove_member
  remove_member_released peer c member m h r =
      elim (Option-cases (etcd_leave_from_victim dial m).1) [
        | inl gone ↦ inl gone
        | inr (e, failed) ↦ elim (Option-cases (c.remove_member member.id)) [
          | inl gone ↦ inr (inl gone)
          | inr (f, failed_too) ↦
              inr (inr (fail_open_overdue env (Message.both e f) m h (ground arith)))
        ]
      ]

  module _ (cluster : Cluster) (tcp : ControlPlaneObject) where
    resolve_member_released :
        (m : Machine) (l : Listing m) (i : Option Member × Bool)
        → identify_etcd_member l.members m owned ≡ i
        → is_hooked m ≡ true
        → is_hooked (resolve_member env dial owned l.peer l.client l.members i m).machine ≡ false
        → MayRelease cluster tcp m
    unfolding resolve_member
    resolve_member_released m l (member, false) e h r = no_member l (inr (ap (λ p. p.1) e))
    resolve_member_released m l (none, true) e h r = no_member l (inl (ap (λ p. p.0) e))
    resolve_member_released m l (some member, true) e h r =
        elim (Option-cases (quorum_after_removal dial owned m (length l.members))) [
          | inr (s, short) ↦ absurd (ground (arith, hold_for_quorum-is_hooked env dial member s m))
          | inl enough ↦
              let marked = mark_etcd_leaving env m in
              let hooked : is_hooked marked.machine ≡ true =
                mark_etcd_leaving-is_hooked env m ∙ h in
              let released =
                and_then-is_hooked marked (remove_member env dial l.peer l.client member)
                  (ground arith) hooked in
              elim (remove_member_released l.peer l.client member marked.machine hooked released) [
                | inl gone ↦ left_etcd l member e enough (inl gone)
                | inr (inl gone) ↦ left_etcd l member e enough (inr gone)
                | inr (inr late) ↦ overdue (sym (mark_etcd_leaving-is_overdue env m) ∙ late)
              ]
        ]

    resolve_with_client_released :
        (peer : Machine) (c : EtcdCalls) (m : Machine)
        → select_etcd_peer owned m ≡ some peer
        → dial peer ≡ ok c
        → is_hooked m ≡ true
        → is_hooked (resolve_with_client env dial owned peer c m).machine ≡ false
        → MayRelease cluster tcp m
    unfolding resolve_with_client
    resolve_with_client_released peer c m chosen reached h r = from (list_etcd_members c) refl
      where
        from : (l : Result (List Member)) → list_etcd_members c ≡ l → MayRelease cluster tcp m
        from (err e) p = overdue (
            fail_open_overdue env (wrap "failed to list etcd members via machine" peer.name e) m h
              (ground arith))
        from (ok members) p =
            resolve_member_released m
              (record {
                peer = peer;
                client = c;
                members = members;
                chosen = chosen;
                reached = reached;
                listed = p;
              })
              (identify_etcd_member members m owned) refl h (ground arith)

    resolve_with_peer_released :
        (p : Option Machine) (m : Machine)
        → select_etcd_peer owned m ≡ p
        → is_hooked m ≡ true
        → is_hooked (resolve_with_peer env dial owned p m).machine ≡ false
        → MayRelease cluster tcp m
    unfolding resolve_with_peer
    resolve_with_peer_released none m chosen h r = overdue (
        fail_open_overdue env
          (say "no healthy control plane machine is available to verify etcd membership") m h r)
    resolve_with_peer_released (some peer) m chosen h r = from (dial peer) refl
      where
        from : (l : Result EtcdCalls) → dial peer ≡ l → MayRelease cluster tcp m
        from (err e) p = overdue (
            fail_open_overdue env (wrap "failed to connect to control plane machine" peer.name e) m
              h (ground arith))
        from (ok c) p = resolve_with_client_released peer c m chosen p h (ground arith)

    resolve_released :
        (m : Machine)
        → is_hooked m ≡ true
        → is_hooked (resolve env dial cluster tcp owned m).machine ≡ false
        → MayRelease cluster tcp m
    unfolding resolve
    resolve_released m h r = elim (Option-cases cluster.deletion) [
      | inr (t, gone) ↦ cluster_deleted (λ e. cc)
      | inl c ↦ elim (Option-cases tcp.deletion) [
        | inr (t, gone) ↦ control_plane_deleted (λ e. cc)
        | inl p ↦ elim (Bool-cases (leb (length owned) 1)) [
          | inl last ↦ last_machine (ground arith)
          | inr many ↦ resolve_with_peer_released (select_etcd_peer owned m) m refl h (ground arith)
        ]
      ]
    ]

    -- The handler takes the hook off a machine only at the pre-terminate phase, and only because the
    -- cluster or the control plane is being deleted, the machine is the last one, by a peer's member
    -- list it has no etcd member or none that can be told, the member that the list identifies left
    -- or was removed through the peer with a healthy majority of the others, or the deadline passed.
    pub reconcile_hook_for_machine_released :
        (victim : Machine)
        → is_hooked victim ≡ true
        → is_hooked (reconcile_hook_for_machine env dial cluster tcp owned victim).machine ≡ false
        → (is_waiting victim ≡ true)
          × MayRelease cluster tcp (stamp_etcd_cleanup_observed_at env victim).machine
    unfolding reconcile_hook_for_machine
    reconcile_hook_for_machine_released victim h r =
        let stamped = stamp_etcd_cleanup_observed_at env victim in
        let hooked : is_hooked stamped.machine ≡ true = stamp-is_hooked env victim ∙ h in
        (
          ground arith,
          resolve_released stamped.machine hooked (
              and_then-is_hooked stamped (resolve env dial cluster tcp owned) (ground arith)
                hooked),
        )
