-- ===== src/Bootstrap/Pending.antt =====
-- What a pass of the bootstrap leaves behind.
use cluster_api_control_plan.Base.{
  ◌≡◌, ◌⊎◌, inl, inr, Bool, true, false, Option, none, some, List, [], ◌∷◌, any, length, leb, In,
  arith, refl, str_eq, Error, Bool-cases, Option-cases, ok,
}
use cluster_api_control_plan.Objects.{Machine, ControlPlaneObject}
use cluster_api_control_plan.Bootstrap.{
  Nodes, Effect, Outcome, machine_bootstrap_address, BootstrapAnswer, accepted, already_exists,
  refused, bootstrap_candidates, is_initialized, etcd_data_holder_among, bootstrap_machine,
  after_request, bootstrap_first, bootstrap_among, bootstrap_control_plane, unreachable,
  release_among, release_bootstrap, after_release, reconcile_bootstrap, record_bootstrapped,
  hold_bootstrap, error_of, bootstrap_retry_after,
}
use cluster_api_control_plan.Bootstrap.Holders.{etcd_data_holder_among-Found, Found}

module _ (nodes : Nodes) where
  -- The node took the request, or was bootstrapped before.
  abbrev pub Took : Machine → Type 0
  Took m =
      (nodes.bootstrap (machine_bootstrap_address m) ≡ accepted)
      ⊎ (nodes.bootstrap (machine_bootstrap_address m) ≡ already_exists)

  -- Why a machine may be recorded as the bootstrapped one.
  abbrev pub IsRecorded : List Machine → ControlPlaneObject → Type 0
  IsRecorded ms tcp =
      (m : Machine) × In m ms
      × (tcp.bootstrapped_machine ≡ m.name)
      × ((nodes.has_etcd_data m ≡ ok true) ⊎ Took m)

  -- The bootstrap is either recorded or comes back.
  abbrev pub IsSettled : List Machine → Outcome → Type 0
  IsSettled ms o =
      ((o.tcp.bootstrapped ≡ true) × IsRecorded ms o.tcp)
      ⊎ (o.requeue_after ≡ bootstrap_retry_after)

  bootstrap_machine-Took : (m : Machine) → (bootstrap_machine nodes m).1 ≡ none → Took m
  unfolding bootstrap_machine
  bootstrap_machine-Took m h = elim (Bool-cases (str_eq (machine_bootstrap_address m) "")) [
    | inl t ↦ absurd (ground arith)
    | inr f ↦ elim (Option-cases (nodes.client m)) [
      | inr (e, k) ↦ absurd (ground arith)
      | inl k ↦ from (nodes.bootstrap (machine_bootstrap_address m)) refl (ground arith)
    ]
  ]
    where
      from :
          (a : BootstrapAnswer)
          → nodes.bootstrap (machine_bootstrap_address m) ≡ a
          → error_of (nodes.bootstrap (machine_bootstrap_address m)) ≡ none
          → Took m
      from accepted e h = inl e
      from already_exists e h = inr e
      from (refused w) e h = absurd (ground arith)

  after_request-IsSettled :
      (ms : List Machine) (m : Machine) (tcp : ControlPlaneObject) (r : List Effect × Option Error)
      → In m ms
      → (r.1 ≡ none → Took m)
      → IsSettled ms (after_request m tcp r)
  unfolding after_request hold_bootstrap record_bootstrapped
  after_request-IsSettled ms m tcp (did, some e) n f = inr refl
  after_request-IsSettled ms m tcp (did, none) n f = inl (refl, (m, n, refl, inr (f refl)))

  bootstrap_first-IsSettled :
      (ms : List Machine) (m : Machine) (tcp : ControlPlaneObject)
      (r : Option Machine × Option Error)
      → In m ms
      → Found nodes ms r
      → IsSettled ms (bootstrap_first nodes m tcp r)
  unfolding bootstrap_first hold_bootstrap record_bootstrapped
  bootstrap_first-IsSettled ms m tcp (some h, e) n (at, holds, _) =
      inl (refl, (h, at, refl, inl holds))
  bootstrap_first-IsSettled ms m tcp (none, some e) n f = inr refl
  bootstrap_first-IsSettled ms m tcp (none, none) n f =
      after_request-IsSettled ms m tcp (bootstrap_machine nodes m) n (bootstrap_machine-Took m)

  bootstrap_among-IsSettled :
      (ms : List Machine) (tcp : ControlPlaneObject) → IsSettled ms (bootstrap_among nodes ms tcp)
  unfolding bootstrap_among hold_bootstrap
  bootstrap_among-IsSettled [] tcp = inr refl
  bootstrap_among-IsSettled (m ∷ ms) tcp =
      bootstrap_first-IsSettled (m ∷ ms) m tcp (etcd_data_holder_among nodes (m ∷ ms)) (inl refl)
        (etcd_data_holder_among-Found nodes (m ∷ ms))

  release_among-IsSettled :
      (ms : List Machine) (tcp : ControlPlaneObject) (r : Option Machine × Option Error)
      → Found nodes ms r
      → ((release_among tcp r).1 ≡ true) ⊎ IsSettled ms (release_among tcp r).0
  unfolding release_among hold_bootstrap record_bootstrapped
  release_among-IsSettled ms tcp (some h, e) (at, holds, _) =
      inr (inl (refl, (h, at, refl, inl holds)))
  release_among-IsSettled ms tcp (none, some e) f = inr (inr refl)
  release_among-IsSettled ms tcp (none, none) f = inl refl

  release_bootstrap-IsSettled :
      (machines : List Machine) (tcp : ControlPlaneObject)
      → ((release_bootstrap nodes machines tcp).1 ≡ true)
        ⊎ IsSettled (bootstrap_candidates machines) (release_bootstrap nodes machines tcp).0
  unfolding release_bootstrap hold_bootstrap
  release_bootstrap-IsSettled machines tcp =
      elim (Bool-cases (leb 1 (length (unreachable machines)))) [
        | inl t ↦ inr (inr (ground arith))
        | inr f ↦ simp f (
            release_among-IsSettled (bootstrap_candidates machines) tcp
              (etcd_data_holder_among nodes (bootstrap_candidates machines))
              (etcd_data_holder_among-Found nodes (bootstrap_candidates machines)))
      ]

  after_release-IsSettled :
      (machines : List Machine) (r : Outcome × Bool)
      → (r.1 ≡ true) ⊎ IsSettled (bootstrap_candidates machines) r.0
      → IsSettled (bootstrap_candidates machines) (after_release nodes machines r)
  unfolding bootstrap_control_plane
  after_release-IsSettled machines (o, true) f =
      bootstrap_among-IsSettled (bootstrap_candidates machines) o.tcp
  after_release-IsSettled machines (o, false) (inl e) = absurd (ground arith)
  after_release-IsSettled machines (o, false) (inr s) = s

  -- Where the control plane is not initialized and no machine holds the lock, a pass either records a
  -- machine that can be bootstrapped and that holds etcd data or took the request, or it comes back.
  pub reconcile_bootstrap-IsSettled :
      (machines : List Machine) (tcp : ControlPlaneObject)
      → is_initialized tcp ≡ false
      → tcp.bootstrapped ≡ false
        ⊎ ((str_eq tcp.bootstrapped_machine "" ≡ false)
            × (any (λ (m : Machine). str_eq m.name tcp.bootstrapped_machine) machines ≡ false))
      → IsSettled (bootstrap_candidates machines) (reconcile_bootstrap nodes machines tcp)
  unfolding reconcile_bootstrap bootstrap_control_plane
  reconcile_bootstrap-IsSettled machines tcp i (inl b) =
      simp (b, i) (bootstrap_among-IsSettled (bootstrap_candidates machines) tcp)
  reconcile_bootstrap-IsSettled machines tcp i (inr (s, a)) = elim (Bool-cases tcp.bootstrapped) [
    | inr b ↦ simp (b, i) (bootstrap_among-IsSettled (bootstrap_candidates machines) tcp)
    | inl b ↦
        simp (b, i, s, a)
          (after_release-IsSettled machines (release_bootstrap nodes machines tcp)
            (release_bootstrap-IsSettled machines tcp))
  ]

  -- An initialized control plane is never bootstrapped: no node is asked to, and the control plane is
  -- recorded as bootstrapped.
  pub reconcile_bootstrap_initialized :
      (machines : List Machine) (tcp : ControlPlaneObject)
      → is_initialized tcp ≡ true
      → let o = reconcile_bootstrap nodes machines tcp in
        (o.effects ≡ [])
        × (o.tcp.bootstrapped ≡ true)
        × (o.tcp.bootstrapped_machine ≡ tcp.bootstrapped_machine)
        × (o.requeue_after ≡ 0)
  unfolding reconcile_bootstrap
  reconcile_bootstrap_initialized machines tcp i = elim (Bool-cases tcp.bootstrapped) [
    | inl b ↦ simp (b, i) (refl, refl, refl, refl)
    | inr b ↦ simp (b, i) (refl, refl, refl, refl)
  ]
