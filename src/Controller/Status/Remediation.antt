-- ===== src/Controller/Status/Remediation.antt =====
-- status.lastRemediation is the remediation in progress, or the latest that a machine records.
use cluster_api_control_plan.Base.{
  some_inj, none≢some, ◌≤◌, ◌≡◌, ◌⊎◌, inl, inr, Option, none, some, List, [], ◌∷◌, ltb, ltb→lt,
  lookup, In, arith, refl, sym, ◌∙◌, Bool-cases, Option-cases,
}
use cluster_api_control_plan.Objects.{
  Machine, ControlPlaneObject, RemediationData, remediation_in_progress_annotation,
  remediation_for_annotation,
}
use cluster_api_control_plan.Controller.Status.{
  read_data, newer, newest, last_remediation, set_last_remediation,
}

-- The remediation that a machine completes, and that which is in progress.
abbrev pub recorded : Machine → Option RemediationData
recorded m = read_data (lookup remediation_for_annotation m.annotations)

abbrev pub in_progress : ControlPlaneObject → Option RemediationData
in_progress tcp = read_data (lookup remediation_in_progress_annotation tcp.annotations)

-- No later than `d`, if there is one.
abbrev pub IsUpTo : RemediationData → Option RemediationData → Type 0
IsUpTo d o = (e : RemediationData) → o ≡ some e → e.timestamp ≤ d.timestamp

up_to : (d : RemediationData) → IsUpTo d (some d)
up_to d e p = rw (some_inj p) (omega arith)

up_to-trans :
    (d e : RemediationData) (o : Option RemediationData)
    → IsUpTo e o
    → e.timestamp ≤ d.timestamp
    → IsUpTo d o
up_to-trans d e o h k x p = omega (arith, h x p, k)

-- The newer of two is one of them, and neither is later.
pub record IsNewer (a b : Option RemediationData) (d : RemediationData) : Type 0 where
  pub from : (a ≡ some d) ⊎ (b ≡ some d)
  pub first : IsUpTo d a
  pub second : IsUpTo d b

newer-IsNewer :
    (a b : Option RemediationData) (d : RemediationData) → newer a b ≡ some d → IsNewer a b d
newer-IsNewer a none d h = record {
  from = inl h;
  first = λ e p. up_to d e (sym h ∙ p);
  second = λ e p. cc;
}
newer-IsNewer none (some b) d h = record {
  from = inr h;
  first = λ e p. cc;
  second = λ e p. up_to d e (sym h ∙ p);
}
newer-IsNewer (some a) (some b) d h = elim (Bool-cases (ltb a.timestamp b.timestamp)) [
  | inl t ↦
      let k : b ≡ d = some_inj (rw t at h) in
      let l = ltb→lt a.timestamp b.timestamp t in
      record {
        from = inr (rw k refl);
        first = λ e p. rw (sym (some_inj p), sym k) (omega (arith, l));
        second = λ e p. rw (sym (some_inj p), sym k) (omega arith);
      }
  | inr f ↦
      let k : a ≡ d = some_inj (rw f at h) in
      record {
        from = inl (rw k refl);
        first = λ e p. rw (sym (some_inj p), sym k) (omega arith);
        second = λ e p. rw (sym (some_inj p), sym k) (ground arith);
      }
]

newer-none : (a b : Option RemediationData) → newer a b ≡ none → (a ≡ none) × (b ≡ none)
newer-none a none h = (h, refl)
newer-none none (some b) h = cc
newer-none (some a) (some b) h = elim (Bool-cases (ltb a.timestamp b.timestamp)) [
  | inl t ↦ absurd (none≢some (sym (rw t at h)))
  | inr f ↦ absurd (none≢some (sym (rw f at h)))
]

-- The newest of what came before and of what the machines record.
pub record IsNewest (last : Option RemediationData) (ms : List Machine) (d : RemediationData)
    : Type 0 where
  pub from : (last ≡ some d) ⊎ ((m : Machine) × In m ms × (recorded m ≡ some d))
  pub before : IsUpTo d last
  pub all : (m : Machine) → In m ms → IsUpTo d (recorded m)

newest-IsNewest :
    (last : Option RemediationData) (ms : List Machine) (d : RemediationData)
    → newest last ms ≡ some d
    → IsNewest last ms d
unfolding newest
newest-IsNewest last [] d h = record {
  from = inl h;
  before = λ e p. up_to d e (sym h ∙ p);
  all = λ m n. absurd n;
}
newest-IsNewest last (m ∷ ms) d h =
    let r = newest-IsNewest (newer last (recorded m)) ms d h in
    combine last m ms d r (Option-cases (newer last (recorded m)))
  where
    bounds :
        (last : Option RemediationData) (m : Machine) (d e : RemediationData)
        → IsNewer last (recorded m) e
        → e.timestamp ≤ d.timestamp
        → IsUpTo d last × IsUpTo d (recorded m)
    bounds last m d e n k =
        (up_to-trans d e last n.first k, up_to-trans d e (recorded m) n.second k)

    combine :
        (last : Option RemediationData) (m : Machine) (ms : List Machine) (d : RemediationData)
        → IsNewest (newer last (recorded m)) ms d
        → (newer last (recorded m) ≡ none)
          ⊎ ((e : RemediationData) × (newer last (recorded m) ≡ some e))
        → IsNewest last (m ∷ ms) d
    combine last m ms d r (inl p) =
        let (a, b) = newer-none last (recorded m) p in
        record {
          from = elim r.from [
            | inr (x, at, q) ↦ inr (x, inr at, q)
            | inl q ↦ absurd (none≢some (sym p ∙ q))
          ];
          before = λ e q. absurd (none≢some (sym a ∙ q));
          all = λ x at. elim at [
            | inl q ↦ rw q (λ e k. absurd (none≢some (sym b ∙ k)))
            | inr k ↦ r.all x k
          ];
        }
    combine last m ms d r (inr (e, p)) =
        let n = newer-IsNewer last (recorded m) e p in
        let (b, c) = bounds last m d e n (r.before e p) in
        record {
          from = elim r.from [
            | inr (x, at, q) ↦ inr (x, inr at, q)
            | inl q ↦ elim (newer-IsNewer last (recorded m) d q).from [
              | inl k ↦ inl k
              | inr k ↦ inr (m, inl refl, k)
            ]
          ];
          before = b;
          all = λ x at. elim at [ inl q ↦ rw q c | inr k ↦ r.all x k ];
        }

-- The latest of the remediations that the machines record.
pub record IsLatest (ms : List Machine) (d : RemediationData) : Type 0 where
  pub machine : Machine
  pub listed : In machine ms
  pub records : recorded machine ≡ some d
  pub all : (m : Machine) → In m ms → IsUpTo d (recorded m)

last_remediation-IsLatest :
    (tcp : ControlPlaneObject) (ms : List Machine) (d : RemediationData)
    → last_remediation tcp ms ≡ some d
    → (in_progress tcp ≡ some d) ⊎ ((in_progress tcp ≡ none) × IsLatest ms d)
unfolding last_remediation
last_remediation-IsLatest tcp ms d h = elim (Option-cases (in_progress tcp)) [
  | inr (e, p) ↦ inl (p ∙ (rw (p, last_remediation) at h))
  | inl p ↦
      let r = newest-IsNewest none ms d (rw (p, last_remediation) at h) in
      elim r.from [
        | inl q ↦ cc
        | inr (m, at, q) ↦ inr (p, record { machine = m; listed = at; records = q; all = r.all })
      ]
]

newest-none :
    (last : Option RemediationData) (ms : List Machine)
    → newest last ms ≡ none
    → (last ≡ none) × ((m : Machine) → In m ms → recorded m ≡ none)
unfolding newest
newest-none last [] h = (h, λ m n. absurd n)
newest-none last (m ∷ ms) h =
    let (a, b) = newest-none (newer last (recorded m)) ms h in
    let (c, d) = newer-none last (recorded m) a in
    (c, λ x n. elim n [ inl q ↦ rw q d | inr k ↦ b x k ])

-- Neither the control plane nor a machine has remediation data that can be read.
pub record IsUnrecorded (tcp : ControlPlaneObject) (ms : List Machine) : Type 0 where
  pub idle : in_progress tcp ≡ none
  pub unrecorded : (m : Machine) → In m ms → recorded m ≡ none

last_remediation-IsUnrecorded :
    (tcp : ControlPlaneObject) (ms : List Machine)
    → last_remediation tcp ms ≡ none
    → IsUnrecorded tcp ms
unfolding last_remediation
last_remediation-IsUnrecorded tcp ms h = elim (Option-cases (in_progress tcp)) [
  | inr (e, p) ↦ absurd (none≢some (sym (rw (p, last_remediation) at h)))
  | inl p ↦ record {
    idle = p;
    unrecorded = (newest-none none ms (rw (p, last_remediation) at h)).1;
  }
]

-- What the status says afterwards: the remediation in progress; the latest that a machine records;
-- or what it said before.
pub data IsTold (ms : List Machine) (before after : ControlPlaneObject) : Type 0 where
  in_progress_told :
      (d : RemediationData)
      → in_progress before ≡ some d
      → after.last_remediation ≡ some d
      → IsTold ms before after
  latest_told :
      (d : RemediationData)
      → in_progress before ≡ none
      → IsLatest ms d
      → after.last_remediation ≡ some d
      → IsTold ms before after
  kept :
      IsUnrecorded before ms
      → after.last_remediation ≡ before.last_remediation
      → IsTold ms before after

-- The last remediation of the status becomes the one in progress; or, if none is in progress, the one
-- that a machine records and than which no machine records a later one; or, if no machine records one,
-- it stays what it was. What cannot be read is skipped.
pub set_last_remediation-IsTold :
    (ms : List Machine) (tcp : ControlPlaneObject) → IsTold ms tcp (set_last_remediation ms tcp)
unfolding set_last_remediation
set_last_remediation-IsTold ms tcp = elim (Option-cases (last_remediation tcp ms)) [
  | inl p ↦ kept (last_remediation-IsUnrecorded tcp ms p) (rw (p, set_last_remediation) refl)
  | inr (d, p) ↦
      let told : (set_last_remediation ms tcp).last_remediation ≡ some d =
        rw (p, set_last_remediation) refl in
      elim (last_remediation-IsLatest tcp ms d p) [
        | inl q ↦ in_progress_told d q told
        | inr (q, latest) ↦ latest_told d q latest told
      ]
]
