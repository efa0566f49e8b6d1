-- ===== src/Remediation/Target/Laws.antt =====
-- The machine to remediate is the most broken candidate.
use cluster_api_control_plan.Base.{
  ◌≤◌, ◌≡◌, true, false, not, none, some, List, [], ◌∷◌, filter, head?, sort_by, In, In-filter,
  filter-In, All, All-of_In, All-In, at_most, IsOrder, first-IsOrder, ℕ-IsOrder, string-IsOrder,
  on-IsOrder, then_by-IsOrder, head?-sort_by, arith, sort_by-In,
}
use cluster_api_control_plan.Objects.{Machine, ControlPlaneObject, Library, has_node}
use cluster_api_control_plan.Quorum.{Statuses, status_of}
use cluster_api_control_plan.Remediation.Target.{
  is_candidate, most_broken, machine_to_be_remediated,
}

module _ (lib : Library) (statuses : Statuses) where
  most_broken-IsOrder : IsOrder (most_broken lib statuses)
  unfolding most_broken
  most_broken-IsOrder = then_by-IsOrder (on-IsOrder lib.has_remediate_machine first-IsOrder) (
      then_by-IsOrder (on-IsOrder (λ (m : Machine). not (has_node m)) first-IsOrder) (
        then_by-IsOrder
          (on-IsOrder (λ (m : Machine). not (status_of statuses m.name).healthy) first-IsOrder)
          (then_by-IsOrder (on-IsOrder (λ (m : Machine). m.created) ℕ-IsOrder)
            (on-IsOrder (λ (m : Machine). m.name) string-IsOrder))))

module _ (lib : Library) (tcp : ControlPlaneObject) (machines : List Machine)
    (statuses : Statuses) where
  abbrev IsCandidate : Machine → Type 0
  IsCandidate m =
      In m machines
      × (lib.is_controlled_by m tcp ≡ true)
      × (lib.is_unhealthy_and_owner_remediated m ≡ true)

  -- No candidate is more broken, by the first property in which it differs.
  pub record IsMostBroken (target : Machine) : Type 0 where
    pub candidate : IsCandidate target
    pub annotated :
        (m : Machine)
        → IsCandidate m
        → lib.has_remediate_machine m ≡ true
        → lib.has_remediate_machine target ≡ true
    pub without_node :
        (m : Machine)
        → IsCandidate m
        → lib.has_remediate_machine m ≡ lib.has_remediate_machine target
        → has_node m ≡ false
        → has_node target ≡ false
    pub unhealthy_etcd :
        (m : Machine)
        → IsCandidate m
        → lib.has_remediate_machine m ≡ lib.has_remediate_machine target
        → has_node m ≡ has_node target
        → (status_of statuses m.name).healthy ≡ false
        → (status_of statuses target.name).healthy ≡ false
    pub oldest :
        (m : Machine)
        → IsCandidate m
        → lib.has_remediate_machine m ≡ lib.has_remediate_machine target
        → has_node m ≡ has_node target
        → (status_of statuses m.name).healthy ≡ (status_of statuses target.name).healthy
        → target.created ≤ m.created

  least :
      (target : Machine)
      → machine_to_be_remediated lib tcp machines statuses ≡ some target
      → IsCandidate target
        × ((m : Machine) → IsCandidate m → at_most (most_broken lib statuses target m) ≡ true)
  unfolding machine_to_be_remediated is_candidate
  least target h =
      let (at, minimal) =
        head?-sort_by (most_broken-IsOrder lib statuses) (filter (is_candidate lib tcp) machines)
          h in
      let (listed, fits) = In-filter _ machines target at in
      (
        (listed, ground arith, ground arith),
        λ m c.
            All-In (λ y. at_most (most_broken lib statuses target y) ≡ true) _ m minimal
              (filter-In _ machines m c.0 (ground arith)),
      )

  -- The machine to be remediated is controlled by the control plane and marked for its owner to
  -- remediate, and no such machine comes before it: one with the remediate-machine annotation, then
  -- one without a node, then one whose etcd was not seen healthy, then an older one.
  pub machine_to_be_remediated-IsMostBroken :
      (target : Machine)
      → machine_to_be_remediated lib tcp machines statuses ≡ some target
      → IsMostBroken target
  unfolding most_broken
  machine_to_be_remediated-IsMostBroken target h =
      let (candidate, before) = least target h in
      record {
        candidate = candidate;
        annotated = λ m c e. ground (arith, before m c);
        without_node = λ m c e f. ground (arith, before m c);
        unhealthy_etcd = λ m c e f g. ground (arith, before m c);
        oldest = λ m c e f g. ground (arith, before m c);
      }

  -- No machine is chosen only if none is a candidate: each is not controlled by the control plane or
  -- not marked for its owner to remediate.
  pub machine_to_be_remediated-none :
      machine_to_be_remediated lib tcp machines statuses ≡ none
      → All (λ m. is_candidate lib tcp m ≡ false) machines
  unfolding machine_to_be_remediated
  machine_to_be_remediated-none h = All-of_In _ machines (λ m n.
      not_candidate (sort_by (most_broken lib statuses) (filter (is_candidate lib tcp) machines)) h
        m (λ c. sort_by-In _ m _ (filter-In _ machines m n c)))
    where
      not_candidate :
          (xs : List Machine)
          → head? xs ≡ none
          → (m : Machine) → (is_candidate lib tcp m ≡ true → In m xs)
          → is_candidate lib tcp m ≡ false
      not_candidate [] e m f = ground (arith, f)
      not_candidate (x ∷ xs) e m f = cc
