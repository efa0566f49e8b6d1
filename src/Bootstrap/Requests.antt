-- ===== src/Bootstrap/Requests.antt =====
-- When a machine gets the bootstrap request.
use cluster_api_control_plan.Base.{
  ◌≤◌, ◌≡◌, ◌≢◌, inl, inr, Bool, true, false, ◌||◌, Option, none, some, List, [], ◌∷◌, String, any,
  head?, length, leb, In, In-append, filter-In, All, All-map, any-false, arith, refl, str_eq,
  eq_iff, Error, Bool-cases, Option-cases, ok,
}
use cluster_api_control_plan.Objects.{Machine, ControlPlaneObject, is_deleting}
use cluster_api_control_plan.Bootstrap.{
  Nodes, Effect, requested, Outcome, machine_bootstrap_address, is_bootstrap_candidate,
  bootstrap_candidates, is_initialized, etcd_data_holder_among, bootstrap_machine, after_request,
  bootstrap_first, bootstrap_among, bootstrap_control_plane, unreachable, release_among,
  release_bootstrap, after_release, reconcile_bootstrap,
}
use cluster_api_control_plan.Bootstrap.Candidates.{front, no-data}

-- Why the target may be bootstrapped with a control plane whose machines are `machines`.
pub record IsSoleStart (nodes : Nodes) (machines : List Machine) (tcp : ControlPlaneObject)
    (target : Machine) : Type 0 where
  pub uninitialized : is_initialized tcp ≡ false
  pub listed : In target machines
  pub candidate : is_bootstrap_candidate target ≡ true
  pub oldest :
      (x : Machine) → In x machines → is_bootstrap_candidate x ≡ true → target.created ≤ x.created
  pub no_data :
      (x : Machine)
      → In x machines
      → is_bootstrap_candidate x ≡ true
      → nodes.has_etcd_data x ≡ ok false
  pub lock_is_free :
      tcp.bootstrapped ≡ true → All (λ (m : Machine). m.name ≢ tcp.bootstrapped_machine) machines
  pub all_reachable :
      tcp.bootstrapped ≡ true
      → (m : Machine) → In m machines
      → is_deleting m ≡ false
      → is_bootstrap_candidate m ≡ true

module _ (nodes : Nodes) (name address : String) where
  abbrev Asks : List Effect → Type 0
  Asks effects = In (requested name address) effects

  -- The machine that the request names.
  abbrev pub IsNamed : Machine → Type 0
  IsNamed m = (m.name ≡ name) × (machine_bootstrap_address m ≡ address)

  after_request-Asks :
      (target : Machine) (tcp : ControlPlaneObject) (r : List Effect × Option Error)
      → Asks (after_request target tcp r).effects
      → Asks r.0
  unfolding after_request
  after_request-Asks target tcp (did, some e) n = n
  after_request-Asks target tcp (did, none) n = elim (In-append _ did _ n) [
    | inl k ↦ k
    | inr (inl k) ↦ cc
    | inr (inr k) ↦ absurd k
  ]

  bootstrap_machine-Asks :
      (target : Machine) → Asks (bootstrap_machine nodes target).0 → IsNamed target
  unfolding bootstrap_machine
  bootstrap_machine-Asks target n =
      elim (Bool-cases (str_eq (machine_bootstrap_address target) "")) [
        | inl t ↦ absurd (ground arith)
        | inr f ↦ elim (Option-cases (nodes.client target)) [
          | inr (e, h) ↦ absurd (ground arith)
          | inl h ↦
              let n' : Asks (requested target.name (machine_bootstrap_address target) ∷ []) =
                ground arith in
              elim n' [ inl k ↦ ground arith | inr k ↦ absurd k ]
        ]
      ]

  -- The list that is asked has the machine at its front, and none of it holds data.
  abbrev IsStart : List Machine → Type 0
  IsStart ms =
      (target : Machine) × (head? ms ≡ some target)
      × (etcd_data_holder_among nodes ms ≡ (none, none))
      × IsNamed target

  bootstrap_among-Asks :
      (ms : List Machine) (tcp : ControlPlaneObject)
      → Asks (bootstrap_among nodes ms tcp).effects
      → IsStart ms
  unfolding bootstrap_among bootstrap_first
  bootstrap_among-Asks [] tcp n = absurd n
  bootstrap_among-Asks (m ∷ ms) tcp n = from (etcd_data_holder_among nodes (m ∷ ms)) refl n
    where
      from :
          (r : Option Machine × Option Error)
          → etcd_data_holder_among nodes (m ∷ ms) ≡ r
          → Asks (bootstrap_first nodes m tcp r).effects
          → IsStart (m ∷ ms)
      from (some h, e) p n = absurd n
      from (none, some e) p n = absurd n
      from (none, none) p n = (
        m,
        refl,
        p,
        bootstrap_machine-Asks m (after_request-Asks m tcp (bootstrap_machine nodes m) n),
      )

  release_among-silent :
      (tcp : ControlPlaneObject) (r : Option Machine × Option Error)
      → Asks (release_among tcp r).0.effects
      → ⊥
  unfolding release_among
  release_among-silent tcp (some h, e) (inl k) = cc
  release_among-silent tcp (some h, e) (inr k) = k
  release_among-silent tcp (none, some e) n = n
  release_among-silent tcp (none, none) (inl k) = cc
  release_among-silent tcp (none, none) (inr k) = k

  -- A release asks nothing itself, and the lock is only released when every machine can be asked.
  release_bootstrap-silent :
      (machines : List Machine) (tcp : ControlPlaneObject)
      → Asks (release_bootstrap nodes machines tcp).0.effects
      → ⊥
  unfolding release_bootstrap
  release_bootstrap-silent machines tcp n =
      elim (Bool-cases (leb 1 (length (unreachable machines)))) [
        | inl t ↦ ground arith
        | inr f ↦ release_among-silent tcp _ (simp f at n)
      ]

  after_release-Asks :
      (machines : List Machine) (r : Outcome × Bool)
      → (Asks r.0.effects → ⊥)
      → Asks (after_release nodes machines r).effects
      → (r.1 ≡ true) × IsStart (bootstrap_candidates machines)
  unfolding bootstrap_control_plane
  after_release-Asks machines (o, false) f n = absurd (f n)
  after_release-Asks machines (o, true) f n = elim (In-append _ o.effects _ n) [
    | inl k ↦ absurd (f k)
    | inr k ↦ (refl, bootstrap_among-Asks (bootstrap_candidates machines) o.tcp k)
  ]

release_bootstrap-reachable :
    (nodes : Nodes) (machines : List Machine) (tcp : ControlPlaneObject)
    → (release_bootstrap nodes machines tcp).1 ≡ true
    → (m : Machine) → In m machines
    → is_deleting m ≡ false
    → is_bootstrap_candidate m ≡ true
unfolding release_bootstrap unreachable is_bootstrap_candidate
release_bootstrap-reachable nodes machines tcp h m n d =
    elim (Bool-cases (str_eq (machine_bootstrap_address m) "")) [
      | inr f ↦ ground arith
      | inl t ↦
          let at : In m (unreachable machines) = filter-In _ machines m n (ground arith) in
          absurd (not-empty (unreachable machines) at (ground arith))
    ]
  where
    not-empty : (xs : List Machine) → In m xs → leb 1 (length xs) ≡ false → ⊥
    not-empty [] at e = at
    not-empty (x ∷ xs) at e = ground arith

sole-start :
    (nodes : Nodes) (machines : List Machine) (tcp : ControlPlaneObject) (name address : String)
    → is_initialized tcp ≡ false
    → (tcp.bootstrapped ≡ true
        → All (λ (m : Machine). m.name ≢ tcp.bootstrapped_machine) machines
          × (release_bootstrap nodes machines tcp).1 ≡ true)
    → IsStart nodes name address (bootstrap_candidates machines)
    → (target : Machine) × IsNamed nodes name address target × IsSoleStart nodes machines tcp target
sole-start nodes machines tcp name address u lock (target, h, found, named) =
    let f = front nodes machines target h in
    (
      target,
      named,
      record {
        uninitialized = u;
        listed = f.listed;
        candidate = f.candidate;
        oldest = f.oldest;
        no_data = no-data nodes machines found;
        lock_is_free = λ b. (lock b).0;
        all_reachable = λ b. release_bootstrap-reachable nodes machines tcp (lock b).1;
      },
    )

-- A machine gets the bootstrap request only if the control plane is not initialized, it is the oldest
-- of the machines that report an address and are not being deleted, and each of those answered that
-- it holds no etcd data; and if a machine was recorded as bootstrapped before, only if that machine
-- is gone and every machine that is not being deleted reports an address.
pub reconcile_bootstrap-IsSoleStart :
    (nodes : Nodes) (machines : List Machine) (tcp : ControlPlaneObject) (name address : String)
    → In (requested name address) (reconcile_bootstrap nodes machines tcp).effects
    → (target : Machine) × IsNamed nodes name address target × IsSoleStart nodes machines tcp target
unfolding reconcile_bootstrap bootstrap_control_plane
reconcile_bootstrap-IsSoleStart nodes machines tcp name address n =
    elim (Bool-cases tcp.bootstrapped) [
      | inr b ↦ elim (Bool-cases (is_initialized tcp)) [
        | inl i ↦ absurd (ground arith)
        | inr i ↦
            sole-start nodes machines tcp name address i (λ b'. absurd (ground arith))
              (bootstrap_among-Asks nodes name address (bootstrap_candidates machines) tcp
                (simp (b, i) at n))
      ]
      | inl b ↦ elim (Bool-cases (is_initialized tcp || str_eq tcp.bootstrapped_machine "")) [
        | inl i ↦ absurd (ground arith)
        | inr i ↦
            elim (Bool-cases
              (any (λ (m : Machine). str_eq m.name tcp.bootstrapped_machine) machines)) [
                | inl a ↦ absurd (ground arith)
                | inr a ↦
                    let (due, start) =
                      after_release-Asks nodes name address machines
                        (release_bootstrap nodes machines tcp)
                        (release_bootstrap-silent nodes name address machines tcp)
                        (simp (b, i, a) at n) in
                    sole-start nodes machines tcp name address (ground arith)
                      (λ _. (
                        All-map _ (λ (m : Machine). m.name ≢ tcp.bootstrapped_machine) machines
                            (λ m e. ground (arith, eq_iff m.name tcp.bootstrapped_machine))
                            (any-false (λ (m : Machine). str_eq m.name tcp.bootstrapped_machine)
                              machines a),
                        due,
                      ))
                      start
              ]
      ]
    ]
