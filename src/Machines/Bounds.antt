-- ===== src/Machines/Bounds.antt =====
-- When a reconcile of the machines creates one, and when it deletes one.
use cluster_api_control_plan.Base.{
  IsBelow, IsAbove, ℕ, Map, suc, ◌≤◌, ◌≡◌, ◌⊎◌, inl, inr, Bool, true, false, Option, none, some,
  List, [], ◌∷◌, ◌++◌, String, length, ltb, In, In-append, refl, ap, ◌∙◌, subst, Bool-cases,
  Option-cases, Error, Result-cases,
}
use cluster_api_control_plan.Objects.{
  Machine, ControlPlaneObject, Library, is_deleting, MachineTemplate, Annotations,
}
use cluster_api_control_plan.Bootstrap
use cluster_api_control_plan.Bootstrap.Kept.{
  SameSpec, SameSpec-trans, same, reconcile_bootstrap-same,
}
use cluster_api_control_plan.Scale.Down.{deleted}
use cluster_api_control_plan.Scale.Up
use cluster_api_control_plan.Scale.Up.{
  boots, from_boot, scale_up_control_plane, scale_down, upgrade_control_plane, idle,
}
use cluster_api_control_plan.Scale.Up.Surge.{HasRoom}
use cluster_api_control_plan.Boot.{creates_machine, control_plane_machine_labels_for_cluster}
use cluster_api_control_plan.Rollout.{ControlPlane, machines_needing_rollout, new_control_plane}
use cluster_api_control_plan.InPlace
use cluster_api_control_plan.InPlace.{reconcile_in_place_updates}
use cluster_api_control_plan.Machines.Template.{
  Patcher, Synced, apply_template, sync_one, sync_machines, reconcile_machine_template_state,
}
use cluster_api_control_plan.Machines.Measured.{IsMeasured, roll_or_resize-IsMeasured}
use cluster_api_control_plan.Machines.{
  Effect, patches, bootstraps, updates, scales, World, tagged, with_changed, note_claimed,
  after_in_place, after_bootstrap, bootstrap_step, after_sync, reconcile_machines,
}

-- What a reconcile of the machines may do.
abbrev pub CreatesOne : List Effect → Type 0
CreatesOne effects = (m : Machine) × In (scales (boots (creates_machine m))) effects

abbrev pub DeletesOne : String → List Effect → Type 0
DeletesOne name effects = In (scales (Up.scales (deleted name))) effects

pub record IsBounded (n : ℕ) (tcp : ControlPlaneObject) (effects : List Effect) : Type 0 where
  pub grows : CreatesOne effects → IsBelow n tcp.replicas ⊎ HasRoom true tcp.replicas tcp.strategy n
  pub shrinks :
      (name : String)
      → DeletesOne name effects
      → (2 ≤ n) × (IsAbove n tcp.replicas ⊎ HasRoom false tcp.replicas tcp.strategy n)

-- Steps that do not scale.
abbrev IsQuiet : List Effect → Type 0
IsQuiet effects = (e : Up.Effect) → ¬ (In (scales e) effects)

patches-IsQuiet : (xs : List Machine) → IsQuiet (tagged patches xs)
patches-IsQuiet [] e n = absurd n
patches-IsQuiet (x ∷ xs) e (inl p) = cc
patches-IsQuiet (x ∷ xs) e (inr n) = patches-IsQuiet xs e n

bootstraps-IsQuiet : (xs : List Bootstrap.Effect) → IsQuiet (tagged bootstraps xs)
bootstraps-IsQuiet [] e n = absurd n
bootstraps-IsQuiet (x ∷ xs) e (inl p) = cc
bootstraps-IsQuiet (x ∷ xs) e (inr n) = bootstraps-IsQuiet xs e n

updates-IsQuiet : (xs : List InPlace.Trigger.Effect) → IsQuiet (tagged updates xs)
updates-IsQuiet [] e n = absurd n
updates-IsQuiet (x ∷ xs) e (inl p) = cc
updates-IsQuiet (x ∷ xs) e (inr n) = updates-IsQuiet xs e n

append-IsQuiet : (xs ys : List Effect) → IsQuiet xs → IsQuiet ys → IsQuiet (xs ++ ys)
append-IsQuiet xs ys p q e n = elim (In-append (scales e) xs ys n) [ inl k ↦ p e k | inr k ↦ q e k ]

In-scales : (e : Up.Effect) (xs : List Up.Effect) → In (scales e) (tagged scales xs) → In e xs
In-scales e [] n = absurd n
In-scales e (x ∷ xs) (inl p) = inl (cc)
In-scales e (x ∷ xs) (inr n) = inr (In-scales e xs n)

after-quiet :
    (before : List Effect) (e : Up.Effect) (xs : List Up.Effect)
    → IsQuiet before
    → In (scales e) (before ++ tagged scales xs)
    → In e xs
after-quiet before e xs q n = elim (In-append (scales e) before (tagged scales xs) n) [
  | inl k ↦ absurd (q e k)
  | inr k ↦ In-scales e xs k
]

quiet-IsBounded :
    (n : ℕ) (tcp : ControlPlaneObject) (effects : List Effect)
    → IsQuiet effects
    → IsBounded n tcp effects
quiet-IsBounded n tcp effects q = record {
  grows = λ (m, k). absurd (q (boots (creates_machine m)) k);
  shrinks = λ name k. absurd (q (Up.scales (deleted name)) k);
}

with_changed-length :
    (c : Option Machine) (ms : List Machine) → length (with_changed c ms) ≡ length ms
with_changed-length none ms = refl
with_changed-length (some m) [] = refl
with_changed-length (some m) (x ∷ xs) = ap suc (with_changed-length (some m) xs)

module _ (lib : Library) (w : World) where
  note_claimed-same :
      (claimed outdated : List Machine) (cp : ControlPlane) (tcp : ControlPlaneObject)
      → SameSpec tcp (note_claimed lib w claimed outdated cp tcp)
  unfolding note_claimed
  note_claimed-same [] outdated cp tcp = same tcp
  note_claimed-same (m ∷ ms) outdated cp tcp = record { replicas = refl; strategy = refl }

  -- Steps measured with the machines and the object as they stand, for the object as it came.
  measured-IsBounded :
      {n : ℕ} {k : ℕ} {tcp tcp' : ControlPlaneObject} (before : List Effect)
      (effects : List Up.Effect)
      → SameSpec tcp tcp'
      → k ≡ n
      → IsQuiet before
      → IsMeasured k tcp'.replicas tcp'.strategy effects
      → IsBounded n tcp (before ++ tagged scales effects)
  measured-IsBounded {n} {k} {tcp} {tcp'} before effects s e q is =
      let is' : IsMeasured n tcp.replicas tcp.strategy effects =
        subst (λ x. IsMeasured x tcp.replicas tcp.strategy effects) e
          (subst (λ x. IsMeasured k tcp.replicas x effects) s.strategy
            (subst (λ x. IsMeasured k x tcp'.strategy effects) s.replicas is)) in
      record {
        grows = λ (m, c). is'.grows (m, after-quiet before _ effects q c);
        shrinks = λ name d. is'.shrinks name (after-quiet before _ effects q d);
      }

  after_in_place-IsBounded :
      {n : ℕ} {tcp₀ : ControlPlaneObject} (before : List Effect) (outdated : List Machine)
      (cp : ControlPlane) (tcp : ControlPlaneObject) (d : InPlace.Outcome)
      → length cp.machines ≡ n
      → SameSpec tcp₀ tcp
      → IsQuiet before
      → IsBounded n tcp₀ (after_in_place lib w before outdated cp tcp d).effects
  unfolding after_in_place
  after_in_place-IsBounded {n} {tcp₀} before outdated cp tcp d e s q =
      let q' : IsQuiet (before ++ tagged updates d.effects) =
        append-IsQuiet before (tagged updates d.effects) q (updates-IsQuiet d.effects) in
      elim (Option-cases d.error) [
        | inr (x, p) ↦ rw (p, after_in_place) (quiet-IsBounded n tcp₀ _ q')
        | inl p ↦
            rw (p, after_in_place)
              (measured-IsBounded _ _
                (SameSpec-trans s (note_claimed-same d.decision.claimed outdated cp tcp))
                (with_changed-length d.changed cp.machines ∙ e) q'
                (roll_or_resize-IsMeasured lib w d.decision.rollout outdated
                  (record cp { machines = with_changed d.changed cp.machines })
                  (note_claimed lib w d.decision.claimed outdated cp tcp)))
      ]

  after_bootstrap-IsBounded :
      {n : ℕ} {tcp₀ : ControlPlaneObject} (before : List Effect) (cp : ControlPlane)
      (b : Bootstrap.Outcome)
      → length cp.machines ≡ n
      → SameSpec tcp₀ b.tcp
      → IsQuiet before
      → IsBounded n tcp₀ (after_bootstrap lib w before cp b).effects
  unfolding after_bootstrap
  after_bootstrap-IsBounded {n} {tcp₀} before cp b e s q =
      let q' : IsQuiet (before ++ tagged bootstraps b.effects) =
        append-IsQuiet before (tagged bootstraps b.effects) q (bootstraps-IsQuiet b.effects) in
      let outdated = machines_needing_rollout lib b.tcp cp in
      elim (Bool-cases (ltb 0 b.requeue_after)) [
        | inl t ↦ rw t (quiet-IsBounded n tcp₀ _ q')
        | inr f ↦ rw f (
            after_in_place-IsBounded _ outdated cp b.tcp
              (reconcile_in_place_updates lib w.in_place b.tcp cp outdated) e s q')
      ]

  bootstrap_step-same :
      (machines : List Machine) (tcp : ControlPlaneObject)
      → SameSpec tcp (bootstrap_step lib w machines tcp).tcp
  unfolding bootstrap_step
  bootstrap_step-same [] tcp = same tcp
  bootstrap_step-same (m ∷ ms) tcp = reconcile_bootstrap-same w.bootstrap (m ∷ ms) tcp

  sync_one-length :
      (p : Patcher) (m : Machine) (ms : List Machine) (rest : Synced) (r : Machine × Bool)
      (h : Option Error)
      → length rest.machines ≡ length ms
      → length (sync_one p m ms rest r h).machines ≡ suc (length ms)
  sync_one-length p m ms rest (m', changed) (some e) k = refl
  sync_one-length p m ms rest (m', false) none k = ap suc k
  sync_one-length p m ms rest (m', true) none k = elim (Option-cases (p.patch m')) [
    | inl e ↦ rw e (ap suc k)
    | inr (x, e) ↦ rw e refl
  ]

  sync_machines-length :
      (p : Patcher) (labels : Map String) (annotations : Annotations) (template : MachineTemplate)
      (ms : List Machine)
      → length (sync_machines p labels annotations template ms).machines ≡ length ms
  unfolding sync_machines
  sync_machines-length p labels annotations template [] = refl
  sync_machines-length p labels annotations template (m ∷ ms) =
      let ih = sync_machines-length p labels annotations template ms in
      elim (Bool-cases (is_deleting m)) [
        | inl t ↦ rw t (ap suc ih)
        | inr f ↦ rw f (
            sync_one-length p m ms (sync_machines p labels annotations template ms)
              (apply_template labels annotations template m) (p.helper m) ih)
      ]

  after_sync-IsBounded :
      {n : ℕ} (cp : ControlPlane) (tcp : ControlPlaneObject) (s : Synced)
      → length s.machines ≡ n
      → IsBounded n tcp (after_sync lib w cp tcp s).effects
  after_sync-IsBounded {n} cp tcp s e = elim (Option-cases s.error) [
    | inr (x, p) ↦ rw p (quiet-IsBounded n tcp _ (patches-IsQuiet s.patched))
    | inl p ↦ rw p (
        after_bootstrap-IsBounded (tagged patches s.patched) (record cp { machines = s.machines })
          (bootstrap_step lib w s.machines tcp) e (bootstrap_step-same s.machines tcp)
          (patches-IsQuiet s.patched))
  ]

  -- A reconcile of the machines creates one only if there are fewer than the replicas, or, under a
  -- rolling update, than the replicas and the surge as int32 adds them; it deletes one only if there
  -- are two at least, and more than the replicas or, under a rolling update, as many as that sum. Where
  -- the sum does not overflow, it is the sum of the integers. The replicas may be negative.
  pub reconcile_machines-IsBounded :
      (tcp : ControlPlaneObject) (machines : List Machine)
      → IsBounded (length machines) tcp (reconcile_machines lib w tcp machines).effects
  unfolding reconcile_machines reconcile_machine_template_state
  reconcile_machines-IsBounded tcp machines =
      elim (Result-cases (new_control_plane w.read_infra w.read_talos w.domains machines)) [
        | inl (e, p) ↦
            rw (p, reconcile_machines)
              (record { grows = λ (m, k). absurd k; shrinks = λ name k. absurd k })
        | inr (cp, p) ↦
            rw (p, reconcile_machines)
              (after_sync-IsBounded cp tcp
                (reconcile_machine_template_state lib w.up.rules w.patcher w.up.cluster_name tcp
                  machines)
                (sync_machines-length w.patcher
                  (control_plane_machine_labels_for_cluster lib w.up.rules tcp w.up.cluster_name)
                  tcp.template_annotations tcp.template machines))
      ]
