-- ===== src/Controller/Status/Initialized.antt =====
-- A control plane is initialized once, and only when its API server answers.
use cluster_api_control_plan.Base.{
  true≢false, some≢none, ℕ, ◌≡◌, inl, inr, true, false, ◌||◌, Option, none, some, List, [], ◌∷◌,
  String, is_some, str_eq, lookup-insert_self, refl, ap, ◌∙◌, sym, Bool-cases, Option-cases, subst,
  Message, deref, Result, ok, err,
}
use cluster_api_control_plan.Objects.{
  Machine, ControlPlaneObject, Library, condition_holds, status_is, is_holds,
}
use cluster_api_control_plan.Controller.Status.{
  World, Outcome, alive, count_replicas, set_basics, set_version, set_initialized_condition,
  initialized_condition, initialization_on_hold, is_initialized, mark_up_to_date, probe, finish,
  unless_deleting, after_list, update_status, reconcile_remediation_status,
  set_remediating_condition, set_last_remediation, remediating_with, last_remediation,
}

-- A step of the status that leaves these alone.
pub record SameStart (before after : ControlPlaneObject) : Type 0 where
  pub initialized : after.initialized ≡ before.initialized
  pub deletion : after.deletion ≡ before.deletion

same_start : (tcp : ControlPlaneObject) → SameStart tcp tcp
same_start tcp = record { initialized = refl; deletion = refl }

trans : {a b c : ControlPlaneObject} → SameStart a b → SameStart b c → SameStart a c
trans p q = record {
  initialized = q.initialized ∙ p.initialized;
  deletion = q.deletion ∙ p.deletion;
}

remediating_with-SameStart :
    (r : Result Message) (tcp : ControlPlaneObject) → SameStart tcp (remediating_with r tcp)
remediating_with-SameStart (err e) tcp = record { initialized = refl; deletion = refl }
remediating_with-SameStart (ok m) tcp = record { initialized = refl; deletion = refl }

set_remediating-SameStart :
    (aggregate : List Machine → Result Message) (marked unhealthy : List Machine)
    (tcp : ControlPlaneObject)
    → SameStart tcp (set_remediating_condition aggregate marked unhealthy tcp)
unfolding set_remediating_condition
set_remediating-SameStart aggregate [] unhealthy tcp = record {
  initialized = refl;
  deletion = refl;
}
set_remediating-SameStart aggregate (m ∷ ms) unhealthy tcp =
    remediating_with-SameStart (aggregate (m ∷ ms)) tcp

set_last-SameStart :
    (machines : List Machine) (tcp : ControlPlaneObject)
    → SameStart tcp (set_last_remediation machines tcp)
unfolding set_last_remediation
set_last-SameStart machines tcp = elim (Option-cases (last_remediation tcp machines)) [
  | inl e ↦ rw (e, set_last_remediation) (same_start tcp)
  | inr (d, e) ↦ rw (e, set_last_remediation) (record { initialized = refl; deletion = refl })
]

reconcile_remediation_status-SameStart :
    (lib : Library) (w : World) (machines : List Machine) (tcp : ControlPlaneObject)
    → SameStart tcp (reconcile_remediation_status lib w machines tcp)
unfolding reconcile_remediation_status
reconcile_remediation_status-SameStart lib w machines tcp =
    trans (set_remediating-SameStart w.aggregate _ _ tcp) (set_last-SameStart machines _)

set_version-SameStart : (v : String) (tcp : ControlPlaneObject) → SameStart tcp (set_version v tcp)
set_version-SameStart v tcp = elim (Bool-cases (str_eq v "")) [
  | inl t ↦ rw t (same_start tcp)
  | inr f ↦ rw f (record { initialized = refl; deletion = refl })
]

set_initialized-initialized :
    (tcp : ControlPlaneObject) → (set_initialized_condition tcp).initialized ≡ tcp.initialized
unfolding set_initialized_condition
set_initialized-initialized tcp = elim (Bool-cases (is_initialized tcp)) [
  | inl t ↦ rw (t, set_initialized_condition) refl
  | inr f ↦ rw (f, set_initialized_condition) refl
]

-- The condition says what the field says.
set_initialized-mirrors :
    (tcp : ControlPlaneObject)
    → condition_holds initialized_condition (set_initialized_condition tcp).conditions
      ≡ is_initialized tcp
unfolding set_initialized_condition
set_initialized-mirrors tcp = elim (Bool-cases (is_initialized tcp)) [
  | inl t ↦
      rw (t, set_initialized_condition)
        (ap (status_is is_holds) (lookup-insert_self initialized_condition _ tcp.conditions))
  | inr f ↦
      rw (f, set_initialized_condition)
        (ap (status_is is_holds) (lookup-insert_self initialized_condition _ tcp.conditions))
]

module _ (lib : Library) (w : World) where
  -- Why a control plane counts as initialized that did not before.
  pub record IsEarned (before : ControlPlaneObject) (machines : List Machine) : Type 0 where
    pub client : w.client ≡ none
    pub nodes : w.list_nodes ≡ none
    pub free : initialization_on_hold lib machines ≡ false
    pub staying : before.deletion ≡ none

  pub record IsHonest (before : ControlPlaneObject) (o : Outcome) : Type 0 where
    pub kept : is_initialized before ≡ true → is_initialized o.tcp ≡ true
    pub earned :
        is_initialized before ≡ false → is_initialized o.tcp ≡ true → IsEarned before o.machines
    pub mirrored :
        before.deletion ≡ none
        → condition_holds initialized_condition o.tcp.conditions ≡ is_initialized o.tcp

  probe-kept :
      (machines : List Machine) (tcp : ControlPlaneObject)
      → is_initialized tcp ≡ true
      → is_initialized (probe lib w machines tcp) ≡ true
  unfolding probe
  probe-kept machines tcp h = elim (Bool-cases (is_some w.client || is_some w.list_nodes)) [
    | inl t ↦ rw (h, t, probe) h
    | inr f ↦ rw (h, f, probe) refl
  ]

  probe-IsEarned :
      (machines : List Machine) (tcp : ControlPlaneObject)
      → tcp.deletion ≡ none
      → is_initialized tcp ≡ false
      → is_initialized (probe lib w machines tcp) ≡ true
      → IsEarned tcp machines
  unfolding probe
  probe-IsEarned machines tcp d h p = elim (Bool-cases (initialization_on_hold lib machines)) [
    | inl t ↦ absurd (true≢false (sym (rw (h, t, probe) at p) ∙ h))
    | inr f ↦ elim (Option-cases w.client) [
      | inr (e, c) ↦ absurd (true≢false (sym (rw (h, f, c, probe) at p) ∙ h))
      | inl c ↦ elim (Option-cases w.list_nodes) [
        | inr (e, n) ↦ absurd (true≢false (sym (rw (h, f, c, n, probe) at p) ∙ h))
        | inl n ↦ record { client = c; nodes = n; free = f; staying = d }
      ]
    ]
  ]

  -- What is left when the counters are in place.
  finish-IsHonest :
      (before : ControlPlaneObject) (machines : List Machine) (tcp : ControlPlaneObject)
      → SameStart before tcp
      → before.deletion ≡ none
      → IsHonest before (finish lib w machines tcp)
  unfolding count_replicas
  finish-IsHonest before machines tcp s d =
      let counted = count_replicas machines tcp in
      let probed = probe lib w machines counted in
      let same : (finish lib w machines tcp).tcp.initialized ≡ probed.initialized =
        set_initialized-initialized probed in
      let flag : is_initialized (finish lib w machines tcp).tcp ≡ is_initialized probed =
        ap (λ o. deref o false) same in
      let start : is_initialized tcp ≡ is_initialized before =
        ap (λ o. deref o false) s.initialized in
      record {
        kept = λ h. flag ∙ probe-kept machines counted (start ∙ h);
        earned = λ h a.
            let e = probe-IsEarned machines counted (s.deletion ∙ d) (start ∙ h) (sym flag ∙ a) in
            record { client = e.client; nodes = e.nodes; free = e.free; staying = d };
        mirrored = λ _. set_initialized-mirrors probed ∙ sym flag;
      }

  unless_deleting-IsHonest :
      (d : Option ℕ) (before : ControlPlaneObject) (machines : List Machine)
      (tcp : ControlPlaneObject)
      → SameStart before tcp
      → before.deletion ≡ d
      → IsHonest before (unless_deleting lib w d machines tcp)
  unless_deleting-IsHonest (some t) before machines tcp s e = record {
    kept = λ h. ap (λ o. deref o false) s.initialized ∙ h;
    earned = λ h a. absurd (true≢false (sym a ∙ ap (λ o. deref o false) s.initialized ∙ h));
    mirrored = λ d. absurd (some≢none (sym e ∙ d));
  }
  unless_deleting-IsHonest none before machines tcp s e =
      let v = w.lowest_version (alive machines) in
      finish-IsHonest before (mark_up_to_date lib w (set_version v tcp) machines)
        (set_version v tcp) (trans s (set_version-SameStart v tcp)) e

  after_list-IsHonest :
      (machines : List Machine) (before tcp : ControlPlaneObject)
      → SameStart before tcp
      → IsHonest before (after_list lib w (ok machines) tcp)
  unfolding set_basics
  after_list-IsHonest machines before tcp s =
      let t = set_basics machines (reconcile_remediation_status lib w machines tcp) in
      let r = reconcile_remediation_status-SameStart lib w machines tcp in
      let s' : SameStart before t =
        trans s (record { initialized = r.initialized; deletion = r.deletion }) in
      unless_deleting-IsHonest t.deletion before machines t s' (sym s'.deletion)

  -- If the machines can be listed, a control plane that is initialized stays so; one becomes so only if
  -- it is not being deleted, its API server answers, and initialization is not on hold, as it is
  -- while its only machine is on its way out; and unless it is being deleted, the Initialized condition
  -- says what the field says.
  pub update_status-IsHonest :
      (tcp : ControlPlaneObject) (machines : List Machine)
      → w.machines ≡ ok machines
      → IsHonest tcp (update_status lib w tcp)
  unfolding update_status
  update_status-IsHonest tcp machines h =
      let start : ControlPlaneObject = record tcp { selector = w.selector } in
      subst (λ r. IsHonest tcp (after_list lib w r start)) (sym h)
        (after_list-IsHonest machines tcp start (record { initialized = refl; deletion = refl }))
