-- ===== src/Etcd/Audit/Laws.antt =====
-- The audit removes the members of no machine, and only those.
use cluster_api_control_plan.Base.{
  ℕ, ◌≡◌, inl, inr, true, false, not, Option, none, some, List, [], ◌∷◌, String, any, to_lower,
  str_eq, Error, Result, ok, err, In, All, All-map, any-false, arith, refl, sym, ap, subst,
  Bool-cases, Option-cases,
}
use cluster_api_control_plan.Objects.{Machine, Member, has_node}
use cluster_api_control_plan.Talos.{MemberMessage, EtcdCalls, Dial}
use cluster_api_control_plan.Etcd.Names.{etcd_member_names, contains}
use cluster_api_control_plan.Etcd.Audit.{
  remove_orphans, audit_via, audit_list, audit_with, audit_etcd, designated_machine,
}

-- The member belongs to no machine.
abbrev IsOrphan : List (List ℕ) → Member → Type 0
IsOrphan owned m = contains owned (to_lower m.hostname) ≡ false

module _ (c : EtcdCalls) (via : String) (owned : List (List ℕ)) where
  removed_are_orphans :
      (members : List Member) (id : ℕ)
      → In id (remove_orphans c via owned members).0
      → (m : Member) × In m members × (m.id ≡ id) × IsOrphan owned m
  unfolding remove_orphans
  removed_are_orphans [] id n = absurd n
  removed_are_orphans (m ∷ ms) id n = elim (Bool-cases (str_eq m.hostname "")) [
    | inl t ↦ absurd (ground arith)
    | inr f ↦ elim (Bool-cases (contains owned (to_lower m.hostname))) [
      | inl k ↦ let (x, at, e, o) = removed_are_orphans ms id (ground arith) in (x, inr at, e, o)
      | inr k ↦ elim (Option-cases (c.remove_member m.id)) [
        | inl e ↦
            let n' : In id (m.id ∷ (remove_orphans c via owned ms).0) = ground arith in
            elim n' [
              | inl i ↦ (m, inl refl, sym i, k)
              | inr at ↦ let (x, at', e, o) = removed_are_orphans ms id at in (x, inr at', e, o)
            ]
        | inr (w, e) ↦
            let n' : In id (m.id ∷ []) = ground arith in
            elim n' [ inl i ↦ (m, inl refl, sym i, k) | inr at ↦ absurd at ]
      ]
    ]
  ]

  orphans_are_removed :
      (members : List Member)
      → (remove_orphans c via owned members).1 ≡ none
      → (m : Member) → In m members
      → IsOrphan owned m
      → In m.id (remove_orphans c via owned members).0
  unfolding remove_orphans
  orphans_are_removed [] h m n o = absurd n
  orphans_are_removed (x ∷ xs) h m n o = elim (Bool-cases (str_eq x.hostname "")) [
    | inl t ↦ absurd (ground arith)
    | inr f ↦ elim (Bool-cases (contains owned (to_lower x.hostname))) [
      | inl k ↦ elim n [
        | inl i ↦ absurd (cc)
        | inr at ↦ let rest = orphans_are_removed xs (ground arith) m at o in ground arith
      ]
      | inr k ↦ elim (Option-cases (c.remove_member x.id)) [
        | inr (w, e) ↦ absurd (ground arith)
        | inl e ↦ elim n [
          | inl i ↦
              let at : In m.id (x.id ∷ (remove_orphans c via owned xs).0) =
                inl (ap (λ (y : Member). y.id) i) in
              ground arith
          | inr at ↦ let rest = orphans_are_removed xs (ground arith) m at o in ground arith
        ]
      ]
    ]
  ]

-- The machine that the audit asks, and the member list that it answers with.
pub record Source (dial : Dial) (machines : List Machine) : Type 0 where
  pub via : Machine
  pub calls : EtcdCalls
  pub message : MemberMessage
  pub later : List MemberMessage
  pub designated : designated_machine machines ≡ some via
  pub dialled : dial via ≡ ok calls
  pub answered : calls.member_list ≡ ok (message ∷ later)

-- The member of an id is one of the source's list, and matches no machine.
abbrev pub IsOrphanOf : {dial : Dial} {machines : List Machine} → Source dial machines → ℕ → Type 0
IsOrphanOf {machines} s id =
    (m : Member) × In m s.message.members × (m.id ≡ id) × IsOrphan (etcd_member_names machines) m

-- What an audit without an error did: there was a source, and all orphans of its list are removed.
pub record IsComplete (dial : Dial) (machines : List Machine) (ids : List ℕ) : Type 0 where
  pub source : Source dial machines
  pub all :
      (m : Member)
      → In m source.message.members
      → IsOrphan (etcd_member_names machines) m
      → In m.id ids

module _ (dial : Dial) (machines : List Machine) where
  abbrev Told : List ℕ × Option Error → Type 0
  Told (ids, e) =
      ((id : ℕ) → In id ids → (s : Source dial machines) × IsOrphanOf s id)
      × (e ≡ none → IsComplete dial machines ids)

  silent : (e : Error) → Told ([], some e)
  silent e = (λ id n. absurd n, λ h. cc)

  list-Told :
      (c : EtcdCalls) (via : Machine)
      → designated_machine machines ≡ some via
      → dial via ≡ ok c
      → (r : Result (List MemberMessage)) → c.member_list ≡ r
      → Told (audit_list c via machines r)
  list-Told c via p q (err e) h = silent _
  list-Told c via p q (ok []) h = silent _
  list-Told c via p q (ok (msg ∷ rest)) h =
      let s : Source dial machines = record {
        via = via;
        calls = c;
        message = msg;
        later = rest;
        designated = p;
        dialled = q;
        answered = h;
      } in
      (
        λ id n. (s, removed_are_orphans c via.name (etcd_member_names machines) msg.members id n),
        λ e. record {
          source = s;
          all = orphans_are_removed c via.name (etcd_member_names machines) msg.members e;
        },
      )

  with-Told :
      (via : Machine)
      → designated_machine machines ≡ some via
      → (r : Result EtcdCalls) → dial via ≡ r
      → Told (audit_with via machines r)
  with-Told via p (err e) h = silent e
  with-Told via p (ok c) h = list-Told c via p h c.member_list refl

  via-Told :
      (o : Option Machine) → designated_machine machines ≡ o → Told (audit_via dial machines o)
  unfolding audit_via
  via-Told none p = silent _
  via-Told (some via) p = with-Told via p (dial via) refl

noded : (x : Machine) → not (has_node x) ≡ false → has_node x ≡ true
noded x e = ground arith

-- The audit removes a member only if every machine has a node, and it stands in the member list that
-- the designated machine answered with and matches none of the machines.
pub audit_etcd-removes :
    (dial : Dial) (machines : List Machine) (id : ℕ)
    → In id (audit_etcd dial (ok machines)).0
    → All (λ m. has_node m ≡ true) machines × (s : Source dial machines) × IsOrphanOf s id
unfolding audit_etcd
audit_etcd-removes dial [] id n = absurd n
audit_etcd-removes dial (m ∷ ms) id n = elim (Bool-cases (any (λ x. not (has_node x)) (m ∷ ms))) [
  | inl t ↦ absurd (ground arith)
  | inr f ↦
      let (s, o) =
        (via-Told dial (m ∷ ms) (designated_machine (m ∷ ms)) refl).0 id (ground arith) in
      (
        All-map _ (λ (x : Machine). has_node x ≡ true) (m ∷ ms) noded
            (any-false (λ (x : Machine). not (has_node x)) (m ∷ ms) f),
        s,
        o,
      )
]

-- Where there are machines, the audit returns no error only if a designated machine answered with a
-- member list, and each member of that list that matches none of the machines was removed.
pub audit_etcd-IsComplete :
    (dial : Dial) (m : Machine) (ms : List Machine)
    → (audit_etcd dial (ok (m ∷ ms))).1 ≡ none
    → IsComplete dial (m ∷ ms) (audit_etcd dial (ok (m ∷ ms))).0
unfolding audit_etcd
audit_etcd-IsComplete dial m ms h = elim (Bool-cases (any (λ x. not (has_node x)) (m ∷ ms))) [
  | inl t ↦ absurd (ground arith)
  | inr f ↦
      let done = (via-Told dial (m ∷ ms) (designated_machine (m ∷ ms)) refl).1 (ground arith) in
      subst (λ (ids : List ℕ). IsComplete dial (m ∷ ms) ids) (ground arith) done
]
