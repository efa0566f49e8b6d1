-- ===== src/Etcd/Membership/Laws.antt =====
-- What a verified member list says of the machines.
use cluster_api_control_plan.Base.{
  ℕ, ◌≡◌, ◌↔◌, inl, inr, Bool, true, not, Option, none, some, List, [], ◌∷◌, String, filter, find?,
  length, to_lower, count, codes_eq, codes_eq→eq, codes_eq_refl, map, Result, ok, err, In, All,
  All-In, All-of_In, any-In, any→In, find?-none, find?-some, arith, refl, sym, subst, Bool-cases,
  Option-cases, leb,
}
use cluster_api_control_plan.Objects.{Machine, Member}
use cluster_api_control_plan.Etcd.Names.{
  node_names_for_machine, etcd_member_names, contains, etcd_member_matches_machine,
}
use cluster_api_control_plan.Etcd.Membership.{
  Expected, EtcdMembership, with_machines, new_etcd_membership, present_names, unowned,
  verify_pending, verify, has_member, compare_etcd_members, add_machine,
}

abbrev IsOk : {A : Type 0} → Result A → Type 0
IsOk (ok _) = Unit
IsOk (err _) = ⊥

-- What a list of members that is verified says.
module _ (s : EtcdMembership) (node : String) (members : List Member) where
  abbrev AllPresent : Type 0
  AllPresent = All (λ e. has_member (present_names members) e ≡ true) s.expected

  verify_pending-IsOk :
      (names : List (List ℕ))
      → verify_pending (present_names members) s.pending node (unowned s members) ≡ ok names
      → (names ≡ present_names members) × (length (unowned s members) ≡ length s.pending)
  unfolding verify_pending
  verify_pending-IsOk names h = ground arith

  verify-IsOk :
      (names : List (List ℕ))
      → verify s node members ≡ ok names
      → AllPresent
        × (names ≡ present_names members)
        × (length (unowned s members) ≡ length s.pending)
  unfolding verify
  verify-IsOk names h =
      elim (Option-cases (find? (λ e. not (has_member (present_names members) e)) s.expected)) [
        | inl e ↦
            let (same, counted) = verify_pending-IsOk names (ground arith) in
            (
              All-of_In _ s.expected
                  (λ x n. ground (arith, All-In _ s.expected x (find?-none _ s.expected e) n)),
              same,
              counted,
            )
        | inr (x, e) ↦ absurd (ground arith)
      ]

-- A host name of the machine is known.
abbrev pub has_names : Machine → Bool
has_names m = leb 1 (length (node_names_for_machine m))

abbrev lacks_names : Machine → Bool
lacks_names m = not (has_names m)

abbrev expected_of : Machine → Expected
expected_of m = record { machine = m.name; names = node_names_for_machine m }

impossible : (m x : Machine) → m ≡ x → node_names_for_machine x ≡ [] → has_names m ≡ true → ⊥
impossible m x i e h =
    let h' : has_names x ≡ true = subst (λ z. has_names z ≡ true) i h in ground arith

module _ (owned : List (List ℕ)) where
  pending-counted :
      (ms : List Machine) → length (with_machines owned ms).pending ≡ count lacks_names ms
  unfolding with_machines
  pending-counted [] = refl
  pending-counted (m ∷ ms) = from (node_names_for_machine m) refl (pending-counted ms)
    where
      from :
          (names : List (List ℕ))
          → node_names_for_machine m ≡ names
          → length (with_machines owned ms).pending ≡ count lacks_names ms
          → length (add_machine m names (with_machines owned ms)).pending
            ≡ count lacks_names (m ∷ ms)
      from [] e h = ground arith
      from (x ∷ xs) e h = ground arith

  owned-kept : (ms : List Machine) → (with_machines owned ms).owned ≡ owned
  unfolding with_machines
  owned-kept [] = refl
  owned-kept (m ∷ ms) = from (node_names_for_machine m) (owned-kept ms)
    where
      from :
          (names : List (List ℕ))
          → (with_machines owned ms).owned ≡ owned
          → (add_machine m names (with_machines owned ms)).owned ≡ owned
      from [] e = e
      from (x ∷ xs) e = e

  expected-listed :
      (ms : List Machine) (m : Machine)
      → In m ms
      → has_names m ≡ true
      → In (expected_of m) (with_machines owned ms).expected
  unfolding with_machines
  expected-listed [] m n h = absurd n
  expected-listed (x ∷ xs) m n h =
      from (node_names_for_machine x) refl n (λ k. expected-listed xs m k h)
    where
      from :
          (names : List (List ℕ))
          → node_names_for_machine x ≡ names
          → In m (x ∷ xs)
          → (In m xs → In (expected_of m) (with_machines owned xs).expected)
          → In (expected_of m) (add_machine x names (with_machines owned xs)).expected
      from [] e (inl i) k = absurd (impossible m x i e h)
      from [] e (inr n) k = k n
      from (y ∷ ys) e (inl i) k = inl (cc)
      from (y ∷ ys) e (inr n) k = inr (k n)

-- What is verified of a machine list: each checked machine whose names are known has a member, and
-- as many members match no owned machine as checked machines have no name yet.
pub record IsVerified (owned machines : List Machine) (members : List Member) : Type 0 where
  pub joined :
      (m : Machine)
      → In m machines
      → has_names m ≡ true
      → (member : Member) × In member members × (etcd_member_matches_machine member m ≡ true)
  pub unmatched :
      count (λ (x : Member). not (contains (etcd_member_names owned) (to_lower x.hostname))) members
      ≡ count lacks_names machines

find_member :
    (members : List Member) (m : Machine)
    → has_member (present_names members) (expected_of m) ≡ true
    → (member : Member) × In member members × (etcd_member_matches_machine member m ≡ true)
unfolding present_names etcd_member_matches_machine
find_member members m h =
    let (name, of_m, at) = any→In _ (node_names_for_machine m) h in
    let (member, n, same) = present-In members name at in
    (member, n, any-In _ (node_names_for_machine m) name of_m (rw same (codes_eq_refl name)))
  where
    present-In :
        (xs : List Member) (name : List ℕ)
        → contains (map (λ (x : Member). to_lower x.hostname) xs) name ≡ true
        → (member : Member) × In member xs × (to_lower member.hostname ≡ name)
    present-In [] name h = cc
    present-In (x ∷ xs) name h = elim (Bool-cases (codes_eq name (to_lower x.hostname))) [
      | inl t ↦ (x, inl refl, sym (codes_eq→eq _ _ t))
      | inr f ↦ let (y, n, e) = present-In xs name (rw f at h) in (y, inr n, e)
    ]

count-filter : {A : Type 0} (p : A → Bool) (xs : List A) → length (filter p xs) ≡ count p xs
count-filter p [] = refl
count-filter p (x ∷ xs) = ground (arith, count-filter p xs)

-- If the member list that a node reports is verified against the owned machines and those of them
-- that take part in the health check, then each of the latter whose host names are known has a member,
-- and exactly as many members match no owned machine as machines of the check have no name yet.
pub verify-IsVerified :
    (owned machines : List Machine) (node : String) (members : List Member) (names : List (List ℕ))
    → verify (new_etcd_membership owned machines) node members ≡ ok names
    → IsVerified owned machines members
unfolding new_etcd_membership unowned
verify-IsVerified owned machines node members names h =
    let s : EtcdMembership = new_etcd_membership owned machines in
    let (present, _, counted) = verify-IsOk s node members names h in
    record {
      joined = λ m n k. find_member members m (
          All-In _ s.expected (expected_of m) present
            (expected-listed (etcd_member_names owned) machines m n k));
      unmatched = ground (
        arith,
        count-filter
            (λ (x : Member). not (contains (etcd_member_names owned) (to_lower x.hostname)))
            members,
        counted,
        owned-kept (etcd_member_names owned) machines,
        pending-counted (etcd_member_names owned) machines,
      );
    }

contained : (xs : List (List ℕ)) (name : List ℕ) → contains xs name ≡ true → In name xs
contained xs name h =
    let (x, n, e) = any→In (codes_eq name) xs h in
    subst (λ z. In z xs) (sym (codes_eq→eq name x e)) n

contains-In : (xs : List (List ℕ)) (name : List ℕ) → In name xs → contains xs name ≡ true
contains-In xs name n = any-In (codes_eq name) xs name n (codes_eq_refl name)

abbrev first_missing : List (List ℕ) → List (List ℕ) → Option (List ℕ)
first_missing xs ys = find? (λ name. not (contains ys name)) xs

none-missing :
    (xs ys : List (List ℕ)) → first_missing xs ys ≡ none → (name : List ℕ) → In name xs → In name ys
none-missing xs ys h name n =
    contained ys name (ground (arith, All-In _ xs name (find?-none _ xs h) n))

some-missing :
    (xs ys : List (List ℕ)) (x : List ℕ)
    → first_missing xs ys ≡ some x
    → ((name : List ℕ) → In name xs → In name ys)
    → ⊥
some-missing xs ys x h f =
    let (n, e) = find?-some _ xs h in let k = contains-In ys x (f x n) in ground arith

-- Two nodes report the same cluster exactly if no error is given: every name that one reports is
-- reported by the other.
pub compare_etcd_members_iff :
    (node other : String) (members previous : List (List ℕ))
    → (compare_etcd_members node members other previous ≡ none)
      ↔ ((name : List ℕ) → In name members ↔ In name previous)
unfolding compare_etcd_members
compare_etcd_members_iff node other members previous = (
  λ h name. elim (Option-cases (first_missing members previous)) [
    | inr (x, e) ↦ absurd (ground arith)
    | inl e ↦ elim (Option-cases (first_missing previous members)) [
      | inr (x, e') ↦ absurd (ground arith)
      | inl e' ↦ (none-missing members previous e name, none-missing previous members e' name)
    ]
  ],
  λ f. elim (Option-cases (first_missing members previous)) [
    | inr (x, e) ↦ absurd (some-missing members previous x e (λ name. (f name).0))
    | inl e ↦ elim (Option-cases (first_missing previous members)) [
      | inr (x, e') ↦ absurd (some-missing previous members x e' (λ name. (f name).1))
      | inl e' ↦ ground arith
    ]
  ],
)
