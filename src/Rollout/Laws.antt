-- ===== src/Rollout/Laws.antt =====
-- Which machines a rollout replaces.
use cluster_api_control_plan.Base.{
  true≢false, none≢some, some_inj, ◌≡◌, ◌≢◌, ◌↔◌, ◌⊎◌, inl, inr, false, not, Option, none, some,
  String, In, In-filter, filter-In, filter, arith, refl, sym, ap, ◌∙◌, subst, lookup, str_eq,
  eq_iff, Option-cases, Bool-cases,
}
use cluster_api_control_plan.Objects.{Machine, ControlPlaneObject, Library, is_deleting}
use cluster_api_control_plan.Rollout.{
  ControlPlane, InfraObject, TalosConfig, cloned_from, matches_template_cloned_from,
  matches_control_plane_config, matches_spec, is_on_delete, machines_with_outdated_rollout_spec,
  machines_needing_rollout,
}
use cluster_api_control_plan.Rollout.Equality.{deep_equal, deep_equal-Tells}

-- A text that is there and is another one.
abbrev pub IsOther : String → Option String → Type 0
IsOther s o = (t : String) × (o ≡ some t) × (t ≢ s)

cloned_from-false :
    (name group_kind : String) (n g : Option String)
    → (cloned_from name group_kind n g ≡ false)
      ↔ (n ≢ none) × (g ≢ none) × (IsOther name n ⊎ IsOther group_kind g)
cloned_from-false name group_kind none g = (λ h. cc, λ h. absurd (h.0 refl))
cloned_from-false name group_kind (some n) none = (λ h. cc, λ h. absurd (h.1 refl))
cloned_from-false name group_kind (some n) (some g) = (
  λ h. (
    λ e. cc,
    λ e. cc,
    elim (Bool-cases (str_eq n name)) [
      | inl t ↦ inr (g, refl, λ e. absurd (ground (arith, eq_iff g group_kind)))
      | inr f ↦ inl (n, refl, λ e. absurd (ground (arith, eq_iff n name)))
    ],
  ),
  λ (_, _, d). elim d [
    | inl (t, e, ne) ↦ elim (Bool-cases (str_eq n name)) [
      | inl k ↦ absurd (ne (some_inj (sym e) ∙ (eq_iff n name).0 k))
      | inr f ↦ rw f refl
    ]
    | inr (t, e, ne) ↦ elim (Bool-cases (str_eq g group_kind)) [
      | inl k ↦ absurd (ne (some_inj (sym e) ∙ (eq_iff g group_kind).0 k))
      | inr f ↦ rw f (ground arith)
    ]
  ],
)

module _ (lib : Library) (tcp : ControlPlaneObject) (cp : ControlPlane) where
  -- The infrastructure is known to be a clone of another template.
  pub record IsFromOther (m : Machine) : Type 0 where
    pub object : InfraObject
    pub at : lookup m.name cp.infra_objects ≡ some object
    pub named : lookup lib.cloned_from_name object.annotations ≢ none
    pub kinded : lookup lib.cloned_from_group_kind object.annotations ≢ none
    pub other :
        IsOther tcp.template.infrastructure_ref.name
          (lookup lib.cloned_from_name object.annotations)
        ⊎ IsOther
            (lib.group_kind tcp.template.infrastructure_ref)
            (lookup lib.cloned_from_group_kind object.annotations)

  -- The configuration is known and is not the one of the control plane.
  abbrev pub HasOtherConfig : Machine → Type 0
  HasOtherConfig m =
      (c : TalosConfig) × (lookup m.name cp.talos_configs ≡ some c) × (tcp.config ≢ c.spec)

  abbrev pub IsOutdated : Machine → Type 0
  IsOutdated m =
      (lib.matches_kubernetes_version tcp.version m ≡ false) ⊎ IsFromOther m ⊎ HasOtherConfig m

  template_iff :
      (m : Machine)
      → (matches_template_cloned_from lib tcp cp.infra_objects m ≡ false) ↔ IsFromOther m
  unfolding matches_template_cloned_from
  template_iff m = elim (Option-cases (lookup m.name cp.infra_objects)) [
    | inl e ↦ (
      λ h. absurd (true≢false (rw (e, matches_template_cloned_from) at h)),
      λ o. absurd (none≢some (sym e ∙ o.at)),
    )
    | inr (obj, e) ↦
        let (to, back) =
          cloned_from-false tcp.template.infrastructure_ref.name
            (lib.group_kind tcp.template.infrastructure_ref)
            (lookup lib.cloned_from_name obj.annotations)
            (lookup lib.cloned_from_group_kind obj.annotations) in
        (
          λ h.
              let (n, g, o) = to (rw (e, matches_template_cloned_from) at h) in
              record { object = obj; at = e; named = n; kinded = g; other = o },
          λ o.
              let same : o.object ≡ obj = some_inj (sym o.at ∙ e) in
              rw (e, matches_template_cloned_from)
                (back (rw (← same) (o.named, o.kinded, o.other))),
        )
  ]

  config_iff :
      (m : Machine)
      → (matches_control_plane_config lib tcp cp.talos_configs m ≡ false) ↔ HasOtherConfig m
  unfolding matches_control_plane_config
  config_iff m = elim (Option-cases (lookup m.name cp.talos_configs)) [
    | inl e ↦ (
      λ h. absurd (true≢false (rw (e, matches_control_plane_config) at h)),
      λ (c, at, _). absurd (none≢some (sym e ∙ at)),
    )
    | inr (c, e) ↦ (
      λ h.
          let h' = rw (e, matches_control_plane_config) at h in
          (
            c,
            e,
            λ p. true≢false (
                sym (deep_equal-Tells.same c.spec) ∙ subst (λ x. deep_equal x c.spec ≡ false) p h'),
          ),
      λ (d, at, ne).
          let same : d ≡ c = some_inj (sym at ∙ e) in
          rw (e, matches_control_plane_config)
            (elim (Bool-cases (deep_equal tcp.config c.spec)) [
              | inl t ↦ absurd (
                  ne (
                    deep_equal-Tells.equal tcp.config c.spec t
                    ∙ ap (λ (k : TalosConfig). k.spec) (sym same)))
              | inr f ↦ f
            ]),
    )
  ]

  matches_spec_iff : (m : Machine) → (matches_spec lib tcp cp m ≡ false) ↔ IsOutdated m
  unfolding matches_spec
  matches_spec_iff m = (
    λ h. elim (Bool-cases (lib.matches_kubernetes_version tcp.version m)) [
      | inr f ↦ inl f
      | inl v ↦ elim (Bool-cases (matches_template_cloned_from lib tcp cp.infra_objects m)) [
        | inr f ↦ inr (inl ((template_iff m).0 f))
        | inl t ↦ inr (inr ((config_iff m).0 (ground arith)))
      ]
    ],
    λ d. elim d [
      | inl f ↦ rw f refl
      | inr (inl o) ↦ let f = (template_iff m).1 o in ground arith
      | inr (inr o) ↦ let f = (config_iff m).1 o in ground arith
    ],
  )

  -- Unless the strategy is to replace machines when they are deleted, the machines to roll out are
  -- those that are not being deleted and are known to differ: in the Kubernetes version, in the
  -- template that the infrastructure was cloned from, or in the configuration. What is not known does
  -- not count as a difference.
  pub machines_needing_rollout_iff :
      (m : Machine)
      → is_on_delete lib tcp tcp.strategy ≡ false
      → In m (machines_needing_rollout lib tcp cp)
        ↔ In m cp.machines × (is_deleting m ≡ false) × IsOutdated m
  unfolding machines_needing_rollout machines_with_outdated_rollout_spec
  machines_needing_rollout_iff m strategy = rw strategy (
    λ n.
        let (n', d) =
          In-filter (λ x. not (matches_spec lib tcp cp x))
            (filter (λ x. not (is_deleting x)) cp.machines) m n in
        let (at, alive) = In-filter (λ x. not (is_deleting x)) cp.machines m n' in
        (at, ground arith, (matches_spec_iff m).0 (ground arith)),
    λ (at, alive, o).
        let f = (matches_spec_iff m).1 o in
        filter-In (λ x. not (matches_spec lib tcp cp x))
          (filter (λ x. not (is_deleting x)) cp.machines) m
          (filter-In (λ x. not (is_deleting x)) cp.machines m at (ground arith)) (ground arith),
  )

  pub machines_needing_rollout-IsOutdated :
      (m : Machine)
      → In m (machines_needing_rollout lib tcp cp)
      → In m cp.machines × (is_deleting m ≡ false) × IsOutdated m
  unfolding machines_needing_rollout
  machines_needing_rollout-IsOutdated m n = elim (Bool-cases (is_on_delete lib tcp tcp.strategy)) [
    | inl t ↦ absurd (rw t at n)
    | inr f ↦ (machines_needing_rollout_iff m f).0 n
  ]
