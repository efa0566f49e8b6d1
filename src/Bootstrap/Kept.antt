-- ===== src/Bootstrap/Kept.antt =====
-- The bootstrap leaves the specification of the control plane alone.
use cluster_api_control_plan.Base.{
  ◌≡◌, inl, inr, Bool, true, false, ◌&&◌, ◌||◌, not, Option, none, some, List, [], ◌∷◌, length, leb,
  any, str_eq, refl, ◌∙◌, Error, Bool-cases,
}
use cluster_api_control_plan.Objects.{Machine, ControlPlaneObject}
use cluster_api_control_plan.Bootstrap.{
  Nodes, Effect, Outcome, is_initialized, hold_bootstrap, record_bootstrapped, after_request,
  bootstrap_first, bootstrap_among, bootstrap_control_plane, bootstrap_candidates, unreachable,
  release_among, release_bootstrap, after_release, reconcile_bootstrap, etcd_data_holder_among,
  bootstrap_machine,
}

-- The fields that a reconcile only reads.
pub record SameSpec (a b : ControlPlaneObject) : Type 0 where
  pub replicas : b.replicas ≡ a.replicas
  pub strategy : b.strategy ≡ a.strategy

pub same : (a : ControlPlaneObject) → SameSpec a a
same a = record { replicas = refl; strategy = refl }

pub SameSpec-trans : {a b c : ControlPlaneObject} → SameSpec a b → SameSpec b c → SameSpec a c
SameSpec-trans p q = record {
  replicas = q.replicas ∙ p.replicas;
  strategy = q.strategy ∙ p.strategy;
}

kept : {a b : ControlPlaneObject} → b.replicas ≡ a.replicas → b.strategy ≡ a.strategy → SameSpec a b
kept p q = record { replicas = p; strategy = q }

module _ (nodes : Nodes) where
  after_request-same :
      (target : Machine) (tcp : ControlPlaneObject) (r : List Effect × Option Error)
      → SameSpec tcp (after_request target tcp r).tcp
  unfolding after_request hold_bootstrap record_bootstrapped
  after_request-same target tcp (did, some e) = kept refl refl
  after_request-same target tcp (did, none) = kept refl refl

  bootstrap_first-same :
      (target : Machine) (tcp : ControlPlaneObject) (h : Option Machine × Option Error)
      → SameSpec tcp (bootstrap_first nodes target tcp h).tcp
  unfolding bootstrap_first hold_bootstrap record_bootstrapped
  bootstrap_first-same target tcp (some holder, e) = kept refl refl
  bootstrap_first-same target tcp (none, some e) = kept refl refl
  bootstrap_first-same target tcp (none, none) =
      after_request-same target tcp (bootstrap_machine nodes target)

  bootstrap_among-same :
      (machines : List Machine) (tcp : ControlPlaneObject)
      → SameSpec tcp (bootstrap_among nodes machines tcp).tcp
  unfolding bootstrap_among hold_bootstrap
  bootstrap_among-same [] tcp = kept refl refl
  bootstrap_among-same (m ∷ ms) tcp =
      bootstrap_first-same m tcp (etcd_data_holder_among nodes (m ∷ ms))

  bootstrap_control_plane-same :
      (machines : List Machine) (tcp : ControlPlaneObject)
      → SameSpec tcp (bootstrap_control_plane nodes machines tcp).tcp
  unfolding bootstrap_control_plane
  bootstrap_control_plane-same machines tcp =
      bootstrap_among-same (bootstrap_candidates machines) tcp

  release_among-same :
      (tcp : ControlPlaneObject) (h : Option Machine × Option Error)
      → SameSpec tcp (release_among tcp h).0.tcp
  unfolding release_among hold_bootstrap record_bootstrapped
  release_among-same tcp (some holder, e) = kept refl refl
  release_among-same tcp (none, some e) = kept refl refl
  release_among-same tcp (none, none) = kept refl refl

  release_bootstrap-same :
      (machines : List Machine) (tcp : ControlPlaneObject)
      → SameSpec tcp (release_bootstrap nodes machines tcp).0.tcp
  unfolding release_bootstrap hold_bootstrap
  release_bootstrap-same machines tcp = elim (Bool-cases (leb 1 (length (unreachable machines)))) [
    | inl t ↦ rw t (kept refl refl)
    | inr f ↦
        rw f (release_among-same tcp (etcd_data_holder_among nodes (bootstrap_candidates machines)))
  ]

  after_release-same :
      (machines : List Machine) (tcp : ControlPlaneObject) (r : Outcome × Bool)
      → SameSpec tcp r.0.tcp
      → SameSpec tcp (after_release nodes machines r).tcp
  after_release-same machines tcp (o, false) s = s
  after_release-same machines tcp (o, true) s =
      SameSpec-trans s (bootstrap_control_plane-same machines o.tcp)

  pub reconcile_bootstrap-same :
      (machines : List Machine) (tcp : ControlPlaneObject)
      → SameSpec tcp (reconcile_bootstrap nodes machines tcp).tcp
  unfolding reconcile_bootstrap
  reconcile_bootstrap-same machines tcp =
      elim (Bool-cases (not tcp.bootstrapped && is_initialized tcp)) [
        | inl a ↦ rw a (kept refl refl)
        | inr a ↦ elim (Bool-cases (not tcp.bootstrapped)) [
          | inl b ↦ rw (a, b) (bootstrap_control_plane-same machines tcp)
          | inr b ↦ elim (Bool-cases (is_initialized tcp || str_eq tcp.bootstrapped_machine "")) [
            | inl c ↦ rw (a, b, c) (kept refl refl)
            | inr c ↦
                elim (Bool-cases
                  (any (λ (m : Machine). str_eq m.name tcp.bootstrapped_machine) machines)) [
                    | inl d ↦ rw (a, b, c, d) (kept refl refl)
                    | inr d ↦
                        rw (a, b, c, d)
                          (after_release-same machines tcp (release_bootstrap nodes machines tcp)
                            (release_bootstrap-same machines tcp))
                  ]
          ]
        ]
      ]
