-- ===== src/Remediation/Progress/Laws.antt =====
-- When the remediation-in-progress annotation is dropped as stale, and that nothing else changes.
use cluster_api_control_plan.Base.{
  reaches_iff, IsReached, ℕ, ◌+◌, ◌<◌, ◌≡◌, ◌↔◌, ◌⊎◌, inl, inr, true, false, not, Option, none,
  some, List, [], ◌∷◌, Any, count, ltb, if◌then◌else◌, lookup, lookup-erase, str_eq, arith, String,
  Bool-cases, Option-cases,
}
use cluster_api_control_plan.Objects.{
  RemediationData, Value, Machine, ControlPlaneObject, is_deleting,
  remediation_in_progress_annotation,
}
use cluster_api_control_plan.Remediation.Limits.{remediation_data_from_annotation}
use cluster_api_control_plan.Remediation.Progress.{
  remediation_start_timeout, remediation_in_progress, drop_in_progress, newer, seen, survey,
  is_stale, reconcile_remediation_in_progress,
}

-- The last machine of a name, and the number of machines that are not being deleted.
abbrev pub last_named : String → Option Machine → List Machine → Option Machine
last_named name found [] = found
last_named name found (m ∷ ms) = last_named name (if str_eq m.name name then some m else found) ms

abbrev pub staying : List Machine → ℕ
staying = count (λ m. not (is_deleting m))

abbrev pub HasNewer : RemediationData → List Machine → Type 0
HasNewer d = Any (λ m. d.timestamp < m.created)

survey_cases :
    (d : RemediationData) (r : Option Machine) (n : ℕ) (ms : List Machine)
    → (HasNewer d ms × (survey d r n ms ≡ newer))
      ⊎ ((¬ HasNewer d ms) × (survey d r n ms ≡ seen (last_named d.machine r ms) (n + staying ms)))
unfolding survey
survey_cases d r n [] = inr ((λ h. h), ground arith)
survey_cases d r n (m ∷ ms) = elim (Bool-cases (ltb d.timestamp m.created)) [
  | inl t ↦ inl (inl (ground arith), ground arith)
  | inr f ↦
      elim (survey_cases d (if str_eq m.name d.machine then some m else r)
        (if is_deleting m then n else n + 1) ms) [
          | inl (some_newer, e) ↦ inl (inr some_newer, ground arith)
          | inr (no_newer, e) ↦ inr (
            (λ h. elim h [ inl now ↦ absurd (ground arith) | inr later ↦ no_newer later ]),
            ground arith,
          )
        ]
]

-- Why the annotation is stale: a newer machine exists; the remediated machine is gone and no
-- replacement is needed; or it is still not being deleted after the timeout.
pub data IsStale (tcp : ControlPlaneObject) (machines : List Machine) (now : ℕ)
    (d : RemediationData) : Type 0 where
  replaced : HasNewer d machines → IsStale tcp machines now d
  not_needed :
      (¬ HasNewer d machines)
      → last_named d.machine none machines ≡ none
      → IsReached (staying machines) tcp.replicas
      → IsStale tcp machines now d
  not_started :
      (m : Machine)
      → (¬ HasNewer d machines)
      → last_named d.machine none machines ≡ some m
      → m.deletion ≡ none
      → d.timestamp + remediation_start_timeout < now
      → IsStale tcp machines now d

module _ (tcp : ControlPlaneObject) (machines : List Machine) (now : ℕ) where
  stale→IsStale :
      (d : RemediationData)
      → is_stale tcp d now (survey d none 0 machines) ≡ true
      → IsStale tcp machines now d
  unfolding is_stale
  stale→IsStale d h = elim (survey_cases d none 0 machines) [
    | inl (some_newer, e) ↦ replaced some_newer
    | inr (no_newer, e) ↦ elim (Option-cases (last_named d.machine none machines)) [
      | inl gone ↦
          not_needed no_newer gone ((reaches_iff (staying machines) tcp.replicas).0 (ground arith))
      | inr (m, at) ↦ not_started m no_newer at (ground arith) (ground arith)
    ]
  ]

  IsStale→stale :
      (d : RemediationData)
      → IsStale tcp machines now d
      → is_stale tcp d now (survey d none 0 machines) ≡ true
  unfolding is_stale
  IsStale→stale d s = elim (survey_cases d none 0 machines) [
    | inl (some_newer, e) ↦ ground arith
    | inr (no_newer, e) ↦ from s no_newer e
  ]
    where
      from :
          IsStale tcp machines now d
          → (¬ HasNewer d machines)
          → survey d none 0 machines
            ≡ seen (last_named d.machine none machines) (0 + staying machines)
          → is_stale tcp d now (survey d none 0 machines) ≡ true
      from (replaced h) no_newer e = absurd (no_newer h)
      from (not_needed _ gone enough) no_newer e =
          ground (arith, (reaches_iff (staying machines) tcp.replicas).1 enough)
      from (not_started m _ at idle late) no_newer e = ground arith

  dropped : remediation_in_progress (drop_in_progress tcp) ≡ false
  unfolding remediation_in_progress drop_in_progress
  dropped = ground (
    arith,
    lookup-erase remediation_in_progress_annotation remediation_in_progress_annotation
        tcp.annotations,
  )

  -- Remediation data that the annotation holds, and that is not stale.
  pub record IsUnderWay (v : Value) (d : RemediationData) : Type 0 where
    pub held : lookup remediation_in_progress_annotation tcp.annotations ≡ some v
    pub readable : remediation_data_from_annotation v ≡ some d
    pub current : ¬ IsStale tcp machines now d

  kept→IsUnderWay :
      remediation_in_progress (reconcile_remediation_in_progress tcp machines now) ≡ true
      → (v : Value) × (d : RemediationData) × IsUnderWay v d
  unfolding reconcile_remediation_in_progress
  kept→IsUnderWay h =
      elim (Option-cases (lookup remediation_in_progress_annotation tcp.annotations)) [
        | inl nothing ↦ absurd (ground (arith, absent nothing))
        | inr (v, e) ↦ elim (Option-cases (remediation_data_from_annotation v)) [
          | inl invalid ↦ absurd (ground (arith, dropped))
          | inr (d, f) ↦ elim (Bool-cases (is_stale tcp d now (survey d none 0 machines))) [
            | inl stale ↦ absurd (ground (arith, dropped))
            | inr current ↦ (
              v,
              d,
              record { held = e; readable = f; current = λ s. ground (arith, IsStale→stale d s) },
            )
          ]
        ]
      ]
    where
      absent :
          lookup remediation_in_progress_annotation tcp.annotations ≡ none
          → remediation_in_progress tcp ≡ false
      absent e = unfold remediation_in_progress in ground arith

  IsUnderWay→kept :
      (v : Value) (d : RemediationData)
      → IsUnderWay v d
      → remediation_in_progress (reconcile_remediation_in_progress tcp machines now) ≡ true
  unfolding reconcile_remediation_in_progress remediation_in_progress
  IsUnderWay→kept v d u = elim (Bool-cases (is_stale tcp d now (survey d none 0 machines))) [
    | inl stale ↦ absurd (u.current (stale→IsStale d stale))
    | inr current ↦ ground arith
  ]

  -- A remediation is in progress after the step exactly when the annotation holds remediation data
  -- that is not stale: no machine is newer than the remediation, the remediated machine is not gone
  -- with enough machines left, and it is not still undeleted after the timeout.
  pub reconcile_remediation_in_progress_iff :
      (remediation_in_progress (reconcile_remediation_in_progress tcp machines now) ≡ true)
      ↔ ((v : Value) × (d : RemediationData) × IsUnderWay v d)
  reconcile_remediation_in_progress_iff = (kept→IsUnderWay, λ (v, d, u). IsUnderWay→kept v d u)

  -- The step changes no other annotation.
  pub reconcile_remediation_in_progress_others :
      (k : String)
      → str_eq remediation_in_progress_annotation k ≡ false
      → lookup k (reconcile_remediation_in_progress tcp machines now).annotations
        ≡ lookup k tcp.annotations
  unfolding reconcile_remediation_in_progress drop_in_progress
  reconcile_remediation_in_progress_others k other =
      ground (arith, lookup-erase remediation_in_progress_annotation k tcp.annotations)
