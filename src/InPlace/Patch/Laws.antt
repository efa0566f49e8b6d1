-- ===== src/InPlace/Patch/Laws.antt =====
-- What it takes for an extension to be trusted with a change.
use cluster_api_control_plan.Base.{
  ◌≡◌, ◌⊎◌, inl, inr, true, ◌&&◌, Option, none, some, List, [], ◌∷◌, String, arith, refl, ap, ◌∙◌,
  str_eq, eq_iff, Result, ok, err, lookup, Bool-cases,
}
use cluster_api_control_plan.Objects.{Machine}
use cluster_api_control_plan.Rollout.{ControlPlane}
use cluster_api_control_plan.InPlace.Patch.{
  Plan, Patch, RequestObjects, Response, Json, Extensions, ◌>>=◌, patched_by, json_reaches,
  patch_reaches, patch_reaches_raw, current_objects, desired_objects, covers, refused, ask_first,
  can_update_machine,
}

>>=-ok :
    {A B : Type 0} (r : Result A) (f : A → Result B) {b : B}
    → (r >>= f) ≡ ok b
    → (a : A) × (r ≡ ok a) × (f a ≡ ok b)
>>=-ok (ok a) f h = (a, refl, h)
>>=-ok (err e) f h = cc

module _ (json : Json) where
  -- The patched text and the desired one stand for the same value.
  pub record Reaches (current desired : String) (patch : Option Patch) : Type 0 where
    pub patched : String
    pub is_patched : patched_by json current patch ≡ ok patched
    pub value : String
    pub gets : json.unmarshal patched ≡ ok value
    pub wants : json.unmarshal desired ≡ ok value

  json_reaches-Reaches :
      (current desired : String) (patch : Option Patch)
      → json_reaches json current desired patch ≡ ok true
      → Reaches current desired patch
  unfolding json_reaches
  json_reaches-Reaches current desired patch h =
      let (patched, p, h₁) = >>=-ok (patched_by json current patch) _ h in
      let (got, g, h₂) = >>=-ok (json.unmarshal patched) _ h₁ in
      let (want, w, h₃) = >>=-ok (json.unmarshal desired) _ h₂ in
      let e : got ≡ want = (eq_iff got want).0 (cc) in
      record { patched = patched; is_patched = p; value = want; gets = g ∙ ap ok e; wants = w }

  -- The machine that the patch makes is the desired one.
  pub record MachineReaches (current desired : Machine) (patch : Option Patch) : Type 0 where
    pub from : String
    pub is_from : json.encode_machine current ≡ ok from
    pub to : String
    pub is_to : json.encode_machine desired ≡ ok to
    pub reaches : Reaches from to patch

  patch_reaches-MachineReaches :
      (current desired : Machine) (patch : Option Patch)
      → patch_reaches json current desired patch ≡ ok true
      → MachineReaches current desired patch
  unfolding patch_reaches
  patch_reaches-MachineReaches current desired patch h =
      let (from, f, h₁) = >>=-ok (json.encode_machine current) _ h in
      let (to, t, h₂) = >>=-ok (json.encode_machine desired) _ h₁ in
      record {
        from = from;
        is_from = f;
        to = to;
        is_to = t;
        reaches = json_reaches-Reaches from to patch h₂;
      }

  -- Two objects that are both missing need no patch.
  abbrev pub RawReaches : String → String → Option Patch → Type 0
  RawReaches current desired patch =
      ((current ≡ "") × (desired ≡ "")) ⊎ Reaches current desired patch

  patch_reaches_raw-RawReaches :
      (current desired : String) (patch : Option Patch)
      → patch_reaches_raw json current desired patch ≡ ok true
      → RawReaches current desired patch
  unfolding patch_reaches_raw
  patch_reaches_raw-RawReaches current desired patch h =
      elim (Bool-cases (str_eq current "" && str_eq desired "")) [
        | inl t ↦ inl (ground (arith, eq_iff current ""), ground (arith, eq_iff desired ""))
        | inr f ↦ inr (json_reaches-Reaches current desired patch (rw (f, patch_reaches_raw) at h))
      ]

  -- The answer's patches make up the whole change.
  pub record IsCovered (current desired : RequestObjects) (r : Response) : Type 0 where
    pub succeeded : r.failure ≡ none
    pub machine : MachineReaches current.machine desired.machine r.machine_patch
    pub bootstrap : RawReaches current.bootstrap_config desired.bootstrap_config r.bootstrap_patch
    pub infrastructure :
        RawReaches current.infrastructure_machine desired.infrastructure_machine
          r.infrastructure_patch

  refused-none : (f : Option String) → refused json f ≡ ok tt → f ≡ none
  refused-none none h = refl
  refused-none (some m) h = cc

  covers-IsCovered :
      (current desired : RequestObjects) (r : Response)
      → covers json current desired r ≡ ok true
      → IsCovered current desired r
  unfolding covers
  covers-IsCovered current desired r h =
      let (u, p, h₀) = >>=-ok (refused json r.failure) _ h in
      let (m, q, h₁) =
        >>=-ok (patch_reaches json current.machine desired.machine r.machine_patch) _ h₀ in
      let (b, s, h₂) =
        >>=-ok
          (patch_reaches_raw json current.bootstrap_config desired.bootstrap_config
            r.bootstrap_patch)
          _ h₁ in
      let (i, t, h₃) =
        >>=-ok
          (patch_reaches_raw json current.infrastructure_machine desired.infrastructure_machine
            r.infrastructure_patch)
          _ h₂ in
      let all : (m && b && i) ≡ true = cc in
      record {
        succeeded = refused-none r.failure p;
        machine =
            patch_reaches-MachineReaches current.machine desired.machine r.machine_patch
              (ground (arith, q, all));
        bootstrap = patch_reaches_raw-RawReaches _ _ r.bootstrap_patch (ground (arith, s, all));
        infrastructure =
            patch_reaches_raw-RawReaches _ _ r.infrastructure_patch (ground (arith, t, all));
      }

  -- What makes a machine one that can be updated in place.
  pub record CanUpdate (extensions : Extensions) (plan : Plan) (cp : ControlPlane) : Type 0 where
    pub name : String
    pub only : extensions.all plan.machine ≡ ok (name ∷ [])
    pub answer : Response
    pub answered :
        extensions.call name
          (current_objects json plan (lookup plan.machine.name cp.talos_configs))
          (desired_objects json plan)
        ≡ ok answer
    pub covered :
        IsCovered
          (current_objects json plan (lookup plan.machine.name cp.talos_configs))
          (desired_objects json plan)
          answer

  ask_first-CanUpdate :
      (extensions : Extensions) (plan : Plan) (cp : ControlPlane) (names : List String)
      → extensions.all plan.machine ≡ ok names
      → ask_first json extensions plan (lookup plan.machine.name cp.talos_configs) names ≡ ok true
      → CanUpdate extensions plan cp
  ask_first-CanUpdate extensions plan cp [] p h = cc
  ask_first-CanUpdate extensions plan cp (name ∷ []) p h =
      let current = lookup plan.machine.name cp.talos_configs in
      let (r, q, k) =
        >>=-ok
          (extensions.call name (current_objects json plan current) (desired_objects json plan)) _
          h in
      record { name = name; only = p; answer = r; answered = q; covered = covers-IsCovered _ _ r k }
  ask_first-CanUpdate extensions plan cp (x ∷ y ∷ rest) p h = cc

  -- A machine can be updated in place only if there is exactly one extension, it does not fail, and
  -- its patches, applied to the machine, its configuration and its infrastructure as they are, give
  -- values equal to the desired ones, or an object is missing on both sides.
  pub can_update_machine-CanUpdate :
      (extensions : Extensions) (plan : Plan) (cp : ControlPlane)
      → can_update_machine json extensions plan cp ≡ ok true
      → CanUpdate extensions plan cp
  unfolding can_update_machine
  can_update_machine-CanUpdate extensions plan cp h =
      let (names, p, k) = >>=-ok (extensions.all plan.machine) _ h in
      ask_first-CanUpdate extensions plan cp names p k
