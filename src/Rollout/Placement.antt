-- ===== src/Rollout/Placement.antt =====
-- Where a new machine is placed.
use cluster_api_control_plan.Base.{
  ◌≡◌, ◌⊎◌, inl, inr, true, false, not, List, [], ◌∷◌, String, filter, length, leb, In, In-filter,
  deref, arith, refl, if◌then◌else◌,
}
use cluster_api_control_plan.Objects.{Machine, ControlPlaneObject, Library, is_deleting}
use cluster_api_control_plan.Scale.{FailureDomain, failure_domains}
use cluster_api_control_plan.Rollout.{
  ControlPlane, up_to_date_machines, next_failure_domain_for_scale_up,
}

-- failuredomains.PickFewest of Cluster API: one of the domains it is given.
abbrev pub Picks : (List FailureDomain → List Machine → List Machine → String) → Type 0
Picks pick =
    (d : FailureDomain) (ds : List FailureDomain) (all up_to_date : List Machine)
    → (x : FailureDomain) × In x (d ∷ ds) × (x.name ≡ pick (d ∷ ds) all up_to_date)

failure_domains-In :
    (domains : List FailureDomain) (x : FailureDomain)
    → In x (failure_domains domains)
    → In x domains
      × ((deref x.control_plane false ≡ true)
          ⊎ (filter (λ (d : FailureDomain). deref d.control_plane false) domains ≡ []))
unfolding failure_domains
failure_domains-In domains x n = split (filter (λ d. deref d.control_plane false) domains) refl n
  where
    split :
        (marked : List FailureDomain)
        → filter (λ d. deref d.control_plane false) domains ≡ marked
        → In x (if leb 1 (length marked) then marked else domains)
        → In x domains
          × ((deref x.control_plane false ≡ true)
              ⊎ (filter (λ (d : FailureDomain). deref d.control_plane false) domains ≡ []))
    split [] e k = (k, inr e)
    split (d ∷ ds) e k =
        let some_marked : leb 1 (length (d ∷ ds)) ≡ true = ground arith in
        let k' : In x (d ∷ ds) = rw some_marked at k in
        let (at, marked) =
          In-filter (λ (y : FailureDomain). deref y.control_plane false) domains x (rw e k') in
        (at, inl marked)

cons≢nil : (d : FailureDomain) (ds : List FailureDomain) → ¬ (d ∷ ds ≡ [])
cons≢nil d ds h = cc

failure_domains-empty : (domains : List FailureDomain) → failure_domains domains ≡ [] → domains ≡ []
unfolding failure_domains
failure_domains-empty domains h = split (filter (λ d. deref d.control_plane false) domains) h
  where
    split :
        (marked : List FailureDomain)
        → (if leb 1 (length marked) then marked else domains) ≡ []
        → domains ≡ []
    split [] k = k
    split (d ∷ ds) k =
        let some_marked : leb 1 (length (d ∷ ds)) ≡ true = ground arith in
        absurd (cons≢nil d ds (rw some_marked at k))

-- A new machine stands in no failure domain only if the cluster has none; otherwise it stands in one
-- of the cluster's domains, one that is marked for the control plane if any is.
pub next_failure_domain_for_scale_up-IsPlaced :
    (lib : Library) (tcp : ControlPlaneObject)
    (pick_fewest : List FailureDomain → List Machine → List Machine → String) (cp : ControlPlane)
    → Picks pick_fewest
    → ((cp.domains ≡ []) × (next_failure_domain_for_scale_up lib tcp pick_fewest cp ≡ ""))
      ⊎ ((x : FailureDomain) × In x cp.domains
          × (x.name ≡ next_failure_domain_for_scale_up lib tcp pick_fewest cp)
          × ((deref x.control_plane false ≡ true)
              ⊎ (filter (λ (d : FailureDomain). deref d.control_plane false) cp.domains ≡ [])))
unfolding next_failure_domain_for_scale_up
next_failure_domain_for_scale_up-IsPlaced lib tcp pick_fewest cp picks =
    split (failure_domains cp.domains) refl
  where
    split :
        (ds : List FailureDomain)
        → failure_domains cp.domains ≡ ds
        → ((cp.domains ≡ []) × (next_failure_domain_for_scale_up lib tcp pick_fewest cp ≡ ""))
          ⊎ ((x : FailureDomain) × In x cp.domains
              × (x.name ≡ next_failure_domain_for_scale_up lib tcp pick_fewest cp)
              × ((deref x.control_plane false ≡ true)
                  ⊎ (filter (λ (d : FailureDomain). deref d.control_plane false) cp.domains ≡ [])))
    split [] e =
        inl (failure_domains-empty cp.domains e, rw (e, next_failure_domain_for_scale_up) refl)
    split (d ∷ ds) e =
        let (x, n, named) =
          picks d ds cp.machines
            (filter (λ m. not (is_deleting m)) (up_to_date_machines lib tcp cp)) in
        let (at, marked) = failure_domains-In cp.domains x (rw e n) in
        inr (x, at, rw (e, next_failure_domain_for_scale_up) named, marked)
