-- ===== src/Controller/Status/Laws.antt =====
-- The counters are those of the machines that stay, and a control plane is initialized once, when its
-- API server answers.
use cluster_api_control_plan.Base.{
  ℕ, ◌≤◌, ◌≡◌, inl, inr, Bool, true, false, not, ◌&&◌, ◌||◌, Option, none, some, List, [], ◌∷◌,
  String, length, count-le-length, any, is_some, str_eq, arith, refl, ap, ◌∙◌, sym, Bool-cases,
  Option-cases, Result-cases, subst, Error, ok,
}
use cluster_api_control_plan.Objects.{
  Machine, ControlPlaneObject, Library, condition_holds, is_deleting, same_name, Counters,
}
use cluster_api_control_plan.Rollout.{
  ControlPlane, set_up_to_date, with_up_to_date, reconcile_machine_up_to_date_conditions,
  new_control_plane, machines_with_outdated_rollout_spec,
}
use cluster_api_control_plan.Controller.Status.{
  World, alive, ready_for, count_replicas, set_basics, set_version, set_initialized_condition,
  initialization_on_hold, is_initialized, mark_up_to_date, probe, finish, unless_deleting,
  after_list, update_status, reconcile_remediation_status,
}

module _ (lib : Library) (tcp : ControlPlaneObject) (helper patch : Machine → Option Error)
    (cp : ControlPlane) where
  with_up_to_date-deletion :
      (b : Bool) (m : Machine) → is_deleting (with_up_to_date lib tcp b m) ≡ is_deleting m
  with_up_to_date-deletion true m = refl
  with_up_to_date-deletion false m = refl

  set_up_to_date-deletion :
      (m : Machine) → is_deleting (set_up_to_date lib tcp helper patch cp m).0 ≡ is_deleting m
  unfolding set_up_to_date
  set_up_to_date-deletion m =
      let b = not (any (λ x. same_name x m) (machines_with_outdated_rollout_spec lib tcp cp)) in
      elim (Bool-cases (is_deleting m)) [
        | inl t ↦ rw (t, set_up_to_date) t
        | inr f ↦ elim (Option-cases (helper m)) [
          | inr (e, h) ↦ rw (f, h, set_up_to_date) f
          | inl h ↦ elim (Option-cases (patch (with_up_to_date lib tcp b m))) [
            | inl p ↦ rw (f, h, p, set_up_to_date) (with_up_to_date-deletion b m ∙ f)
            | inr (e, p) ↦ rw (f, h, p, set_up_to_date) (with_up_to_date-deletion b m ∙ f)
          ]
        ]
      ]

  conditions-alive :
      (ms : List Machine)
      → length (alive (reconcile_machine_up_to_date_conditions lib tcp helper patch cp ms).0)
        ≡ length (alive ms)
  unfolding reconcile_machine_up_to_date_conditions
  conditions-alive [] = refl
  conditions-alive (m ∷ ms) = ground (arith, conditions-alive ms, set_up_to_date-deletion m)

-- The counters of a control plane with `n` machines that stay.
pub record IsCounted (n : ℕ) (tcp : ControlPlaneObject) : Type 0 where
  pub replicas : tcp.counters.replicas ≡ n
  pub ready : tcp.counters.ready ≤ n
  pub available : tcp.counters.available ≤ n
  pub up_to_date : tcp.counters.up_to_date ≤ n

module _ (lib : Library) (w : World) where
  mark_up_to_date-alive :
      (tcp : ControlPlaneObject) (machines : List Machine)
      → length (alive (mark_up_to_date lib w tcp machines)) ≡ length (alive machines)
  unfolding mark_up_to_date
  mark_up_to_date-alive tcp machines =
      elim (Result-cases (new_control_plane w.read_infra w.read_talos w.domains (alive machines))) [
        | inl (e, p) ↦ rw (p, mark_up_to_date) refl
        | inr (cp, p) ↦
            rw (p, mark_up_to_date) (conditions-alive lib tcp w.helper w.patch cp machines)
      ]

  probe-counters :
      (machines : List Machine) (tcp : ControlPlaneObject)
      → (probe lib w machines tcp).counters ≡ tcp.counters
  unfolding probe
  probe-counters machines tcp =
      elim (Bool-cases (not (is_initialized tcp) && initialization_on_hold lib machines)) [
        | inl t ↦ rw (t, probe) refl
        | inr f ↦ elim (Bool-cases (is_some w.client || is_some w.list_nodes)) [
          | inl t ↦ rw (f, t, probe) refl
          | inr g ↦ rw (f, g, probe) refl
        ]
      ]

  set_initialized-counters :
      (tcp : ControlPlaneObject) → (set_initialized_condition tcp).counters ≡ tcp.counters
  unfolding set_initialized_condition
  set_initialized-counters tcp = elim (Bool-cases (is_initialized tcp)) [
    | inl t ↦ rw (t, set_initialized_condition) refl
    | inr f ↦ rw (f, set_initialized_condition) refl
  ]

  set_version-counters :
      (v : String) (tcp : ControlPlaneObject) → (set_version v tcp).counters ≡ tcp.counters
  set_version-counters v tcp = elim (Bool-cases (str_eq v "")) [
    | inl t ↦ rw t refl
    | inr f ↦ rw f refl
  ]

  counted :
      (n : ℕ) (machines : List Machine) (tcp after : ControlPlaneObject)
      → length (alive machines) ≡ n
      → tcp.counters.replicas ≡ n
      → after.counters ≡ (count_replicas machines tcp).counters
      → IsCounted n after
  unfolding count_replicas
  counted n machines tcp after l r e =
      let within : (kind : String) → ready_for kind machines ≤ n = λ kind.
        omega
          (arith, l, count-le-length (λ m. condition_holds kind m.conditions) (alive machines)) in
      record {
        replicas = ap (λ (c : Counters). c.replicas) e ∙ r;
        ready = rw (ap (λ (c : Counters). c.ready) e) (within "Ready");
        available = rw (ap (λ (c : Counters). c.available) e) (within "Available");
        up_to_date = rw (ap (λ (c : Counters). c.up_to_date) e) (within "UpToDate");
      }

  finish-IsCounted :
      (n : ℕ) (machines : List Machine) (tcp : ControlPlaneObject)
      → length (alive machines) ≡ n
      → tcp.counters.replicas ≡ n
      → IsCounted n (finish lib w machines tcp).tcp
  finish-IsCounted n machines tcp l r = counted n machines tcp (finish lib w machines tcp).tcp l r (
      set_initialized-counters (probe lib w machines (count_replicas machines tcp))
      ∙ probe-counters machines (count_replicas machines tcp))

  unless_deleting-IsCounted :
      (d : Option ℕ) (machines : List Machine) (tcp : ControlPlaneObject)
      → tcp.counters ≡ (set_basics machines tcp).counters
      → IsCounted (length (alive machines)) (unless_deleting lib w d machines tcp).tcp
  unfolding set_basics
  unless_deleting-IsCounted (some t) machines tcp e = record {
    replicas = ap (λ (c : Counters). c.replicas) e;
    ready = rw (ap (λ (c : Counters). c.ready) e) (omega arith);
    available = rw (ap (λ (c : Counters). c.available) e) (omega arith);
    up_to_date = rw (ap (λ (c : Counters). c.up_to_date) e) (omega arith);
  }
  unless_deleting-IsCounted none machines tcp e =
      let v = w.lowest_version (alive machines) in
      finish-IsCounted (length (alive machines))
        (mark_up_to_date lib w (set_version v tcp) machines) (set_version v tcp)
        (mark_up_to_date-alive (set_version v tcp) machines)
        (ap (λ (c : Counters). c.replicas) (set_version-counters v tcp ∙ e))

  after_list-IsCounted :
      (machines : List Machine) (tcp : ControlPlaneObject)
      → IsCounted (length (alive machines)) (after_list lib w (ok machines) tcp).tcp
  unfolding set_basics
  after_list-IsCounted machines tcp =
      let t = set_basics machines (reconcile_remediation_status lib w machines tcp) in
      unless_deleting-IsCounted t.deletion machines t refl

  -- If the machines can be listed, the replicas of the status are the machines that are not being
  -- deleted, and no more of them are counted as ready, available or up to date.
  pub update_status-IsCounted :
      (tcp : ControlPlaneObject) (machines : List Machine)
      → w.machines ≡ ok machines
      → IsCounted (length (alive machines)) (update_status lib w tcp).tcp
  unfolding update_status
  update_status-IsCounted tcp machines h =
      subst
        (λ r.
          IsCounted (length (alive machines))
            (after_list lib w r (record tcp { selector = w.selector })).tcp)
        (sym h) (after_list-IsCounted machines (record tcp { selector = w.selector }))
