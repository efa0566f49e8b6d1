-- ===== src/Bootstrap/Candidates.antt =====
-- The first of the machines that can be bootstrapped.
use cluster_api_control_plan.Base.{
  ◌≤◌, ◌≡◌, true, false, none, some, List, filter, head?, In, In-filter, filter-In, All-In, arith,
  subst, IsOrder, ℕ-IsOrder, string-IsOrder, on-IsOrder, then_by-IsOrder, head?-sort_by, sort_by-In,
  at_most, ok,
}
use cluster_api_control_plan.Objects.{Machine}
use cluster_api_control_plan.Bootstrap.{
  Nodes, is_bootstrap_candidate, oldest_first, bootstrap_candidates, etcd_data_holder_among,
}
use cluster_api_control_plan.Bootstrap.Holders.{etcd_data_holder_among-Found, Found}

oldest_first-IsOrder : IsOrder oldest_first
unfolding oldest_first
oldest_first-IsOrder =
    then_by-IsOrder (on-IsOrder (λ (m : Machine). m.created) ℕ-IsOrder)
      (on-IsOrder (λ (m : Machine). m.name) string-IsOrder)

created-le : (a b : Machine) → at_most (oldest_first a b) ≡ true → a.created ≤ b.created
unfolding oldest_first
created-le a b h = ground arith

module _ (nodes : Nodes) (machines : List Machine) where
  -- What the list of candidates has at its front.
  pub record IsFront (target : Machine) : Type 0 where
    pub listed : In target machines
    pub candidate : is_bootstrap_candidate target ≡ true
    pub oldest :
        (x : Machine) → In x machines → is_bootstrap_candidate x ≡ true → target.created ≤ x.created

  pub front :
      (target : Machine) → head? (bootstrap_candidates machines) ≡ some target → IsFront target
  unfolding bootstrap_candidates
  front target h =
      let (at, least) =
        head?-sort_by oldest_first-IsOrder (filter is_bootstrap_candidate machines) h in
      let (listed, fits) = In-filter _ machines target at in
      record {
        listed = listed;
        candidate = fits;
        oldest = λ x n c.
            created-le target x
              (All-In _ _ x least (filter-In is_bootstrap_candidate machines x n c));
      }

  -- All candidates answered that they hold no data.
  pub no-data :
      etcd_data_holder_among nodes (bootstrap_candidates machines) ≡ (none, none)
      → (x : Machine) → In x machines
      → is_bootstrap_candidate x ≡ true
      → nodes.has_etcd_data x ≡ ok false
  unfolding bootstrap_candidates
  no-data e x n c =
      All-In _ (bootstrap_candidates machines) x
        (subst (Found nodes (bootstrap_candidates machines)) e
          (etcd_data_holder_among-Found nodes (bootstrap_candidates machines)))
        (sort_by-In oldest_first x _ (filter-In is_bootstrap_candidate machines x n c))
