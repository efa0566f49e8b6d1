-- ===== src/Scale/Laws.antt =====
-- The machine that a scale-down removes.
use cluster_api_control_plan.Base.{
  ◌≤◌, ◌≡◌, inl, inr, Bool, true, false, ◌&&◌, not, Option, none, some, List, [], ◌∷◌, String, any,
  filter, head?, length, leb, str_eq, eq_iff, has_key, In, In-filter, filter-In, All-In, IsOrder,
  ℕ-IsOrder, string-IsOrder, on-IsOrder, then_by-IsOrder, head?-sort_by, at_most, sort_by,
  sort_by-In, arith, refl, sym, subst, Bool-cases, ok,
}
use cluster_api_control_plan.Objects.{Machine, Library, is_deleting}
use cluster_api_control_plan.Scale.{
  FailureDomain, by_creation, in_failure_domains, failure_domains, failure_domain_names, oldest,
  machine_with_delete_annotation, flagged, unhealthy_machines, eligible, domain_of,
  failure_domain_with_most_machines, chosen, machine_in_failure_domain_with_most_machines,
  select_machine_for_scale_down,
}

by_creation-IsOrder : IsOrder by_creation
unfolding by_creation
by_creation-IsOrder =
    then_by-IsOrder (on-IsOrder (λ (m : Machine). m.created) ℕ-IsOrder)
      (on-IsOrder (λ (m : Machine). m.name) string-IsOrder)

created-le : (a b : Machine) → at_most (by_creation a b) ≡ true → a.created ≤ b.created
unfolding by_creation
created-le a b h = ground arith

-- The machine is one of the list, and none of the list was created before it.
pub record IsOldestOf (ms : List Machine) (m : Machine) : Type 0 where
  pub listed : In m ms
  pub first : (x : Machine) → In x ms → m.created ≤ x.created

oldest-IsOldestOf : (ms : List Machine) (m : Machine) → oldest ms ≡ some m → IsOldestOf ms m
unfolding oldest
oldest-IsOldestOf ms m h =
    let (at, least) = head?-sort_by by_creation-IsOrder ms h in
    record { listed = at; first = λ x n. created-le m x (All-In _ ms x least n) }

oldest-none : (ms : List Machine) → oldest ms ≡ none → (x : Machine) → In x ms → ⊥
unfolding oldest
oldest-none ms h x n = from (sort_by by_creation ms) h (sort_by-In by_creation x ms n)
  where
    from : (ys : List Machine) → head? ys ≡ none → In x ys → ⊥
    from [] e at = at
    from (y ∷ ys) e at = cc

module _ (pick_most : List FailureDomain → List Machine → List Machine → String) (lib : Library)
    (domains : List FailureDomain) (machines outdated : List Machine) where
  abbrev current : Machine → Bool
  current m = in_failure_domains (failure_domain_names (failure_domains domains)) m

  -- Why the machine is removed.
  pub record IsRemovable (m : Machine) : Type 0 where
    -- one that is annotated for deletion goes first, then one to be remediated, then an outdated one
    pub annotated :
        any (λ x. has_key lib.delete_machine x.annotations) machines ≡ true
        → has_key lib.delete_machine m.annotations ≡ true
    pub to_remediate :
        any (λ x. has_key lib.delete_machine x.annotations) machines ≡ false
        → any (λ x. has_key lib.delete_machine x.annotations) outdated ≡ false
        → any (λ x. lib.is_unhealthy_and_owner_remediated x && not (is_deleting x)) machines ≡ true
        → lib.is_unhealthy_and_owner_remediated m ≡ true
    pub candidate : In m (eligible lib machines outdated)
    -- and the oldest of its failure domain
    pub oldest_there :
        (x : Machine)
        → In x (eligible lib machines outdated)
        → x.failure_domain ≡ m.failure_domain
        → m.created ≤ x.created
    -- one in none of the current failure domains goes before all that are in one
    pub outside :
        (x : Machine)
        → In x (eligible lib machines outdated)
        → current x ≡ false
        → current m ≡ false

  some-filter : (p : Machine → Bool) (xs : List Machine) → leb 1 (length (filter p xs)) ≡ any p xs
  some-filter p [] = refl
  some-filter p (x ∷ xs) = ground (arith, some-filter p xs)

  abbrev is_annotated : Machine → Bool
  is_annotated x = has_key lib.delete_machine x.annotations

  abbrev is_flagged : Machine → Bool
  is_flagged x = lib.is_unhealthy_and_owner_remediated x && not (is_deleting x)

  -- What the tier says of its machines.
  record IsOfTier (m : Machine) : Type 0 where
    annotated : any is_annotated machines ≡ true → is_annotated m ≡ true
    to_remediate :
        any is_annotated machines ≡ false
        → any is_annotated outdated ≡ false
        → any is_flagged machines ≡ true
        → lib.is_unhealthy_and_owner_remediated m ≡ true

  eligible-IsOfTier : (m : Machine) → In m (eligible lib machines outdated) → IsOfTier m
  unfolding eligible machine_with_delete_annotation flagged unhealthy_machines
  eligible-IsOfTier m n =
      let a = some-filter is_annotated outdated in
      let b = some-filter is_annotated machines in
      let c = some-filter lib.is_unhealthy_and_owner_remediated outdated in
      let d = some-filter is_flagged machines in
      elim (Bool-cases (leb 1 (length (filter is_annotated outdated)))) [
        | inl t ↦
            let (_, p) = In-filter is_annotated outdated m (simp t at n) in
            record { annotated = λ _. p; to_remediate = λ _ e _. absurd (ground arith) }
        | inr f ↦ elim (Bool-cases (leb 1 (length (filter is_annotated machines)))) [
          | inl t ↦
              let (_, p) = In-filter is_annotated machines m (simp (f, t) at n) in
              record { annotated = λ _. p; to_remediate = λ e _ _. absurd (ground arith) }
          | inr g ↦
              elim (Bool-cases
                (leb 1 (length (filter lib.is_unhealthy_and_owner_remediated outdated)))) [
                  | inl t ↦
                      let (_, p) =
                        In-filter lib.is_unhealthy_and_owner_remediated outdated m
                          (simp (f, g, t) at n) in
                      record { annotated = λ e. absurd (ground arith); to_remediate = λ _ _ _. p }
                  | inr h ↦ elim (Bool-cases (leb 1 (length (filter is_flagged machines)))) [
                    | inl t ↦
                        let (_, p) = In-filter is_flagged machines m (simp (f, g, h, t) at n) in
                        record {
                          annotated = λ e. absurd (ground arith);
                          to_remediate = λ _ _ _. ground arith;
                        }
                    | inr i ↦ record {
                      annotated = λ e. absurd (ground arith);
                      to_remediate = λ _ _ e. absurd (ground arith);
                    }
                  ]
                ]
        ]
      ]

  -- The domain that is chosen is that of a machine outside of the current ones, if there is one.
  domain-outside :
      (x m : Machine)
      → In x (eligible lib machines outdated)
      → current x ≡ false
      → m.failure_domain
        ≡ failure_domain_with_most_machines pick_most domains machines
            (eligible lib machines outdated)
      → current m ≡ false
  unfolding failure_domain_with_most_machines domain_of
  domain-outside x m n out e =
      from (oldest (filter (λ y. not (current y)) (eligible lib machines outdated))) refl e
    where
      from :
          (o : Option Machine)
          → oldest (filter (λ y. not (current y)) (eligible lib machines outdated)) ≡ o
          → m.failure_domain
            ≡ domain_of pick_most
                (failure_domains domains)
                machines
                (eligible lib machines outdated)
                o
          → current m ≡ false
      from none p e = absurd (
          oldest-none _ p x
            (filter-In (λ y. not (current y)) (eligible lib machines outdated) x n (ground arith)))
      from (some y) p e =
          let (_, q) =
            In-filter (λ z. not (current z)) (eligible lib machines outdated) y
              (oldest-IsOldestOf _ y p).listed in
          subst (λ d. any (str_eq d) (failure_domain_names (failure_domains domains)) ≡ false)
            (sym e) (ground arith)

  -- The machine that a scale-down selects is annotated for deletion if any machine is, or else to be
  -- remediated if one is that is not being deleted and no outdated machine is annotated; it is the
  -- oldest candidate of its failure domain; and it is outside of the current failure domains if any
  -- candidate is.
  pub select_machine_for_scale_down-IsRemovable :
      (m : Machine)
      → select_machine_for_scale_down pick_most lib domains machines outdated ≡ ok m
      → IsRemovable m
  unfolding select_machine_for_scale_down machine_in_failure_domain_with_most_machines
  select_machine_for_scale_down-IsRemovable m h =
      let candidates = eligible lib machines outdated in
      let domain = failure_domain_with_most_machines pick_most domains machines candidates in
      let found : oldest (filter (in_failure_domains (domain ∷ [])) candidates) ≡ some m =
        picked (oldest (filter (in_failure_domains (domain ∷ [])) candidates)) h in
      let o = oldest-IsOldestOf _ m found in
      let (n, d) = In-filter (in_failure_domains (domain ∷ [])) candidates m o.listed in
      let same : m.failure_domain ≡ domain = ground (arith, eq_iff m.failure_domain domain) in
      let tier = eligible-IsOfTier m n in
      record {
        annotated = tier.annotated;
        to_remediate = tier.to_remediate;
        candidate = n;
        oldest_there = λ x k e. o.first x (
            filter-In (in_failure_domains (domain ∷ [])) candidates x k
              (ground (arith, eq_iff x.failure_domain domain)));
        outside = λ x k out. domain-outside x m k out same;
      }
    where
      picked : (c : Option Machine) → chosen pick_most c ≡ ok m → c ≡ some m
      picked none e = cc
      picked (some y) e = ground arith
