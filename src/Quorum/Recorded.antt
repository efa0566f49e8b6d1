-- ===== src/Quorum/Recorded.antt =====
-- Where the member list comes from that quorum is judged by.
use cluster_api_control_plan.Base.{
  ◌≡◌, ◌≢◌, ◌⊎◌, inl, inr, Bool, true, false, ◌&&◌, Option, none, some, List, [], ◌∷◌, String, Map,
  lookup, lookup-insert, arith, refl, All, In, Error, ok, err, Bool-cases, insert, str_eq,
  In-append, In-filter, eq_iff,
}
use cluster_api_control_plan.Objects.{Machine, Member, has_node}
use cluster_api_control_plan.Etcd.Names.{others_than}
use cluster_api_control_plan.Quorum.{
  Statuses, status_of, is_healthy, healthy_from, first_list, asked_last, recorded_etcd_from, is_nil,
  either_error,
}

is_healthy-nil : (name : String) → is_healthy [] name ≡ true → ⊥
unfolding is_healthy lookup
is_healthy-nil name h = cc

module _ (statuses : Statuses) where
  -- A machine that the health check saw: it has a node and its etcd service is healthy.
  abbrev pub IsSeenHealthy : Machine → Type 0
  IsSeenHealthy m = (m.node_ref ≢ none) × ((status_of statuses m.name).healthy ≡ true)

  healthy_from_sound :
      (machines : List Machine) (start : Map Bool) (name : String)
      → is_healthy (healthy_from statuses start machines) name ≡ true
      → (is_healthy start name ≡ true)
        ⊎ ((m : Machine) × In m machines × (m.name ≡ name) × IsSeenHealthy m)
  unfolding healthy_from is_healthy
  healthy_from_sound [] start name h = inl h
  healthy_from_sound (m ∷ ms) start name h =
      elim (healthy_from_sound ms
        (insert m.name (has_node m && (status_of statuses m.name).healthy) start) name h) [
          | inr (x, at, named, seen) ↦ inr (x, inr at, named, seen)
          | inl now ↦ elim (Bool-cases (str_eq m.name name)) [
            | inl same ↦
                let now' : (has_node m && (status_of statuses m.name).healthy) ≡ true = ground (
                  arith,
                  lookup-insert m.name name (has_node m && (status_of statuses m.name).healthy)
                      start,
                ) in
                inr (m, inl refl, (eq_iff m.name name).0 same, ((λ e. ground arith), ground arith))
            | inr other ↦ inl (
                ground (
                  arith,
                  lookup-insert m.name name (has_node m && (status_of statuses m.name).healthy)
                      start,
                ))
          ]
        ]

  first_list_sound :
      (healthy : Map Bool) (e : Option Error) (machines : List Machine) {members : List Member}
      → first_list statuses healthy e machines ≡ ok members
      → (m : Machine) × In m machines
        × (is_healthy healthy m.name ≡ true)
        × ((status_of statuses m.name).members ≡ members)
        × (members ≢ [])
  unfolding first_list
  first_list_sound healthy e [] h = absurd (ground arith)
  first_list_sound healthy e (m ∷ ms) {members} h = elim (Bool-cases (is_healthy healthy m.name)) [
    | inr f ↦
        let (x, at, seen, same, some_member) = first_list_sound healthy e ms (ground arith) in
        (x, inr at, seen, same, some_member)
    | inl t ↦ elim (Bool-cases (is_nil (status_of statuses m.name).members)) [
      | inl nil ↦
          let (x, at, seen, same, some_member) =
            first_list_sound healthy (either_error (status_of statuses m.name).list_err e) ms
              (ground arith) in
          (x, inr at, seen, same, some_member)
      | inr full ↦ (m, inl refl, t, ground arith, λ nil. ground arith)
    ]
  ]

  first_list-err :
      (healthy : Map Bool) (e : Option Error) (machines : List Machine) (why : Error)
      → first_list statuses healthy e machines ≡ err why
      → All
          (λ m. (is_healthy healthy m.name ≡ false) ⊎ ((status_of statuses m.name).members ≡ []))
          machines
  unfolding first_list
  first_list-err healthy e [] why h = tt
  first_list-err healthy e (m ∷ ms) why h = elim (Bool-cases (is_healthy healthy m.name)) [
    | inr f ↦ (inl f, first_list-err healthy e ms why (ground arith))
    | inl t ↦ elim (Bool-cases (is_nil (status_of statuses m.name).members)) [
      | inl nil ↦ (
        inr (ground arith),
        first_list-err healthy (either_error (status_of statuses m.name).list_err e) ms why
            (ground arith),
      )
      | inr full ↦ absurd (ground arith)
    ]
  ]

  asked_last-In :
      (machines : List Machine) (last : Option Machine) (m : Machine)
      → In m (asked_last statuses last machines)
      → In m machines ⊎ (last ≡ some m)
  unfolding asked_last others_than
  asked_last-In machines none m at = inl at
  asked_last-In machines (some l) m at = elim (In-append m (others_than l machines) (l ∷ []) at) [
    | inl front ↦ inl (In-filter _ machines m front).0
    | inr back ↦ inr (ground arith)
  ]

  -- A member list that is judged by was reported by a machine of the list, or by the one asked
  -- last, and a machine of that name was seen healthy by the health check; and it is not empty.
  pub recorded_etcd_from_sound :
      (machines : List Machine) (last : Option Machine) (members : List Member)
      → (recorded_etcd_from statuses machines last).0 ≡ ok members
      → (m : Machine) × (In m machines ⊎ (last ≡ some m))
        × ((x : Machine) × In x machines × (x.name ≡ m.name) × IsSeenHealthy x)
        × ((status_of statuses m.name).members ≡ members)
        × (members ≢ [])
  unfolding recorded_etcd_from
  recorded_etcd_from_sound machines last members h =
      let (m, at, seen, same, full) =
        first_list_sound (healthy_from statuses [] machines) none
          (asked_last statuses last machines) h in
      (m, asked_last-In machines last m at, witness m.name seen, same, full)
    where
      witness :
          (name : String)
          → is_healthy (healthy_from statuses [] machines) name ≡ true
          → (x : Machine) × In x machines × (x.name ≡ name) × IsSeenHealthy x
      witness name seen = elim (healthy_from_sound machines [] name seen) [
        | inl none_yet ↦ absurd (is_healthy-nil name none_yet)
        | inr found ↦ found
      ]

  -- There is no member list to judge by only if every machine is unhealthy or reported none.
  pub recorded_etcd_from-err :
      (machines : List Machine) (last : Option Machine) (why : Error)
      → (recorded_etcd_from statuses machines last).0 ≡ err why
      → All
          (λ m.
            (is_healthy (recorded_etcd_from statuses machines last).1 m.name ≡ false)
            ⊎ ((status_of statuses m.name).members ≡ []))
          (asked_last statuses last machines)
  unfolding recorded_etcd_from
  recorded_etcd_from-err machines last why h =
      first_list-err (healthy_from statuses [] machines) none (asked_last statuses last machines)
        why h
