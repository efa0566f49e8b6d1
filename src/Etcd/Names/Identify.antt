-- ===== src/Etcd/Names/Identify.antt =====
-- What `identifyEtcdMember` promises of the member that it returns.
use cluster_api_control_plan.Base.{
  ℕ, ◌≤◌, ◌≡◌, ◌≢◌, ◌⊎◌, Bool, true, false, List, [], ◌∷◌, All, In, In-filter, find?-some,
  find?-none, arith, inl, inr, Bool-cases, refl, any, length, some, none, leb, ◌==◌, filter, subst,
  sym, All-of_In, All-map, find?, to_lower,
}
use cluster_api_control_plan.Objects.{Machine, Member}
use cluster_api_control_plan.Etcd.Names.{
  node_names_for_machine, etcd_member_matches_machine, contains, find_etcd_member, others_than,
  unmatched_members, by_elimination, identify_etcd_member,
}

abbrev IsNamed : Machine → Type 0
IsNamed m = 1 ≤ length (node_names_for_machine m)

-- No machine of the list has a name that the member carries.
abbrev MatchesNone : Member → List Machine → Type 0
MatchesNone member ms = any (etcd_member_matches_machine member) ms ≡ false

-- What identifies a member: a name of the machine, or that it alone is left over.
pub record IsIdentified (members : List Member) (m : Machine) (others : List Machine)
    (member : Member) : Type 0 where
  pub listed : In member members
  pub by :
      (etcd_member_matches_machine member m ≡ true)
      ⊎ ((length (node_names_for_machine m) ≡ 0)
          × All IsNamed others
          × (unmatched_members members others ≡ member ∷ []))

IsNamed-others :
    (others : List Machine)
    → any (λ other. length (node_names_for_machine other) == 0) others ≡ false
    → All IsNamed others
IsNamed-others [] h = tt
IsNamed-others (o ∷ others) h = (ground arith, IsNamed-others others (ground arith))

by_elimination-some :
    (rest : List Member) (others : List Machine) {member : Member}
    → by_elimination rest others ≡ (some member, true)
    → (rest ≡ member ∷ []) × All IsNamed others
unfolding by_elimination
by_elimination-some [] others h = cc
by_elimination-some (x ∷ []) others h =
    elim (Bool-cases (any (λ other. length (node_names_for_machine other) == 0) others)) [
      | inl t ↦ ground arith
      | inr f ↦ (ground arith, IsNamed-others others f)
    ]
by_elimination-some (x ∷ y ∷ zs) others h = cc

unmatched-In :
    (members : List Member) (others : List Machine) (member : Member)
    → unmatched_members members others ≡ member ∷ []
    → In member members
unfolding unmatched_members
unmatched-In members others member e =
    (In-filter _ members member (subst (In member) (sym e) (inl refl))).0

-- A member that is returned as known is in the list, and either carries a name of the machine or
-- is identified by elimination: the machine has no name, every other machine has one, and the
-- member is the only one that matches no other machine.
pub identify_etcd_member-IsIdentified :
    (members : List Member) (m : Machine) (machines : List Machine) (member : Member)
    → identify_etcd_member members m machines ≡ (some member, true)
    → IsIdentified members m (others_than m machines) member
unfolding identify_etcd_member find_etcd_member
identify_etcd_member-IsIdentified members m machines member h =
    elim (Bool-cases (leb 1 (length (node_names_for_machine m)))) [
      | inl t ↦
          let found : find? (λ member. etcd_member_matches_machine member m) members ≡ some member =
            ground arith in
          let (listed, matches) = find?-some _ members found in
          record { listed = listed; by = inl matches }
      | inr f ↦
          let found : by_elimination (unmatched_members members (others_than m machines))
                (others_than m machines)
              ≡ (some member, true) =
            ground arith in
          let (alone, named) = by_elimination-some _ (others_than m machines) found in
          record {
            listed = unmatched-In members (others_than m machines) member alone;
            by = inr (ground arith, named, alone);
          }
    ]

by_elimination-none :
    (rest : List Member) (others : List Machine)
    → by_elimination rest others ≡ (none, true)
    → rest ≡ []
unfolding by_elimination
by_elimination-none [] others h = refl
by_elimination-none (x ∷ []) others h = absurd (ground arith)
by_elimination-none (x ∷ y ∷ zs) others h = absurd (ground arith)

filter-nil :
    (p : Member → Bool) (members : List Member)
    → filter p members ≡ []
    → All (λ member. p member ≡ false) members
filter-nil p [] h = tt
filter-nil p (x ∷ xs) h = ground (arith, filter-nil p xs)

nameless_matches :
    (member : Member) (m : Machine)
    → length (node_names_for_machine m) ≡ 0
    → etcd_member_matches_machine member m ≡ false
unfolding etcd_member_matches_machine
nameless_matches member m h = go (node_names_for_machine m) h
  where
    go :
        (names : List (List ℕ))
        → length names ≡ 0
        → contains names (to_lower member.hostname) ≡ false
    go [] e = refl
    go (n ∷ names) e = absurd (omega arith)

All-matched :
    (members : List Member) (m : Machine) (machines : List Machine)
    → unmatched_members members (others_than m machines) ≡ []
    → All
        (λ member. any (etcd_member_matches_machine member) (others_than m machines) ≡ true)
        members
unfolding unmatched_members
All-matched members m machines e =
    All-map _ _ members (λ member p. ground arith) (filter-nil _ members e)

by_elimination_known : (others : List Machine) → by_elimination [] others ≡ (none, true)
unfolding by_elimination
by_elimination_known others = refl

-- When the machine is known to have no member, no member of the list carries a name of it; and if
-- the machine has no name, every member of the list matches another machine.
pub identify_etcd_member-none :
    (members : List Member) (m : Machine) (machines : List Machine)
    → identify_etcd_member members m machines ≡ (none, true)
    → All (λ member. etcd_member_matches_machine member m ≡ false) members
      × (length (node_names_for_machine m) ≡ 0
          → All
              (λ member. any (etcd_member_matches_machine member) (others_than m machines) ≡ true)
              members)
unfolding identify_etcd_member find_etcd_member
identify_etcd_member-none members m machines h =
    elim (Bool-cases (leb 1 (length (node_names_for_machine m)))) [
      | inl t ↦
          let found : find? (λ member. etcd_member_matches_machine member m) members ≡ none =
            ground arith in
          (find?-none _ members found, λ e. absurd (ground arith))
      | inr f ↦
          let nameless : length (node_names_for_machine m) ≡ 0 = ground arith in
          let rest : by_elimination (unmatched_members members (others_than m machines))
                (others_than m machines)
              ≡ (none, true) =
            ground arith in
          (
            All-of_In _ members (λ member _. nameless_matches member m nameless),
            λ _.
                All-matched members m machines
                  (by_elimination-none _ (others_than m machines) rest),
          )
    ]

-- It is not known whether the machine has a member only when the machine has no name and some
-- member matches no other machine.
pub identify_etcd_member_unknown :
    (members : List Member) (m : Machine) (machines : List Machine)
    → (identify_etcd_member members m machines).1 ≡ false
    → (length (node_names_for_machine m) ≡ 0)
      × (unmatched_members members (others_than m machines) ≢ [])
unfolding identify_etcd_member
identify_etcd_member_unknown members m machines h =
    (ground arith, λ e. absurd (ground (arith, by_elimination_known (others_than m machines))))
