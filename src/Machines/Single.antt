-- ===== src/Machines/Single.antt =====
-- One reconcile of the machines creates or deletes one machine at most.
use cluster_api_control_plan.Base.{
  is_below, is_above, ◌≤◌, ◌≡◌, Bool, false, List, [], ◌∷◌, ◌++◌, length, ltb, ◌==◌, count,
  count-append, inl, inr, arith, refl, Bool-cases, Option-cases, Result-cases,
}
use cluster_api_control_plan.Objects.{Machine, ControlPlaneObject, Library}
use cluster_api_control_plan.Bootstrap
use cluster_api_control_plan.Scale.Up
use cluster_api_control_plan.Scale.Up.{from_boot, scale_up_control_plane, scale_down, idle}
use cluster_api_control_plan.Scale.Up.Once
use cluster_api_control_plan.Scale.Up.Once.{
  scale_up_control_plane-once, scale_down-once, upgrade_control_plane-once, booting-count,
}
use cluster_api_control_plan.Boot.Once.{boot_control_plane-once, report_failure-once}
use cluster_api_control_plan.Boot.{initialize_control_plane, boot_control_plane}
use cluster_api_control_plan.Rollout.{ControlPlane, machines_needing_rollout, new_control_plane}
use cluster_api_control_plan.InPlace
use cluster_api_control_plan.InPlace.{reconcile_in_place_updates}
use cluster_api_control_plan.Machines.Template.{Synced, reconcile_machine_template_state}
use cluster_api_control_plan.Machines.{
  Effect, patches, bootstraps, updates, scales, World, tagged, with_changed, drop_error, resize,
  note_claimed, note_up_to_date, roll_or_resize, after_in_place, after_bootstrap, bootstrap_step,
  after_sync, reconcile_machines,
}

-- The effect creates or deletes a machine.
abbrev pub is_change : Effect → Bool
is_change (scales e) = Once.is_change e
is_change _ = false

patches-count : (xs : List Machine) → count is_change (tagged patches xs) ≡ 0
patches-count [] = refl
patches-count (x ∷ xs) = patches-count xs

bootstraps-count : (xs : List Bootstrap.Effect) → count is_change (tagged bootstraps xs) ≡ 0
bootstraps-count [] = refl
bootstraps-count (x ∷ xs) = bootstraps-count xs

updates-count : (xs : List InPlace.Trigger.Effect) → count is_change (tagged updates xs) ≡ 0
updates-count [] = refl
updates-count (x ∷ xs) = updates-count xs

scales-count : (xs : List Up.Effect) → count is_change (tagged scales xs) ≡ count Once.is_change xs
scales-count [] = refl
scales-count (x ∷ xs) = ground (arith, scales-count xs)

drop_error-effects : (o : Up.Outcome) → (drop_error o).effects ≡ o.effects
unfolding drop_error
drop_error-effects o = elim (Bool-cases (ltb 0 o.requeue_after)) [
  | inl t ↦ rw t refl
  | inr f ↦ rw f refl
]

module _ (lib : Library) (w : World) where
  resize-once :
      (cp : ControlPlane) (tcp : ControlPlaneObject)
      → count Once.is_change (resize lib w cp tcp).effects ≤ 1
  unfolding resize initialize_control_plane
  resize-once cp tcp = elim (Bool-cases (is_below (length cp.machines) tcp.replicas)) [
    | inl t ↦ elim (Bool-cases (length cp.machines == 0)) [
      | inl z ↦
          rw (t, z)
            (omega (
              arith,
              booting-count
                  (initialize_control_plane lib w.up.rules w.up.pick_fewest w.up.boot
                    w.up.cluster_name cp tcp).effects,
              report_failure-once "FailedInitialization"
                  "Failed to create initial control plane Machine"
                  (boot_control_plane lib w.up.rules w.up.pick_fewest w.up.boot w.up.cluster_name cp
                    tcp),
              boot_control_plane-once lib w.up.rules w.up.pick_fewest w.up.boot w.up.cluster_name cp
                  tcp,
            ))
      | inr z ↦ rw (t, z) (scale_up_control_plane-once lib w.up cp tcp)
    ]
    | inr f ↦ elim (Bool-cases (is_above (length cp.machines) tcp.replicas)) [
      | inl t ↦
          rw (f, t)
            (rw (drop_error-effects (scale_down lib w.up cp tcp []))
              (scale_down-once lib w.up cp tcp []))
      | inr g ↦ rw (f, g) (omega arith)
    ]
  ]

  roll_or_resize-once :
      (rollout outdated : List Machine) (cp : ControlPlane) (tcp : ControlPlaneObject)
      → count Once.is_change (roll_or_resize lib w rollout outdated cp tcp).effects ≤ 1
  unfolding roll_or_resize
  roll_or_resize-once [] outdated cp tcp = resize-once cp (note_up_to_date lib w outdated tcp)
  roll_or_resize-once (m ∷ ms) outdated cp tcp = upgrade_control_plane-once lib w.up cp _ (m ∷ ms)

  after_in_place-once :
      (before : List Effect) (outdated : List Machine) (cp : ControlPlane)
      (tcp : ControlPlaneObject) (d : InPlace.Outcome)
      → count is_change before ≡ 0
      → count is_change (after_in_place lib w before outdated cp tcp d).effects ≤ 1
  unfolding after_in_place
  after_in_place-once before outdated cp tcp d none_before =
      let quiet : count is_change (before ++ tagged updates d.effects) ≡ 0 = omega (
        arith,
        count-append is_change before (tagged updates d.effects),
        updates-count d.effects,
      ) in
      elim (Option-cases d.error) [
        | inr (e, p) ↦ rw (p, after_in_place) (omega arith)
        | inl p ↦
            let o =
              roll_or_resize lib w d.decision.rollout outdated
                (record cp { machines = with_changed d.changed cp.machines })
                (note_claimed lib w d.decision.claimed outdated cp tcp) in
            rw (p, after_in_place)
              (omega (
                arith,
                count-append is_change (before ++ tagged updates d.effects)
                    (tagged scales o.effects),
                scales-count o.effects,
                roll_or_resize-once d.decision.rollout outdated
                    (record cp { machines = with_changed d.changed cp.machines })
                    (note_claimed lib w d.decision.claimed outdated cp tcp),
              ))
      ]

  after_bootstrap-once :
      (before : List Effect) (cp : ControlPlane) (b : Bootstrap.Outcome)
      → count is_change before ≡ 0
      → count is_change (after_bootstrap lib w before cp b).effects ≤ 1
  unfolding after_bootstrap
  after_bootstrap-once before cp b none_before =
      let quiet : count is_change (before ++ tagged bootstraps b.effects) ≡ 0 = omega (
        arith,
        count-append is_change before (tagged bootstraps b.effects),
        bootstraps-count b.effects,
      ) in
      let outdated = machines_needing_rollout lib b.tcp cp in
      elim (Bool-cases (ltb 0 b.requeue_after)) [
        | inl t ↦ rw t (omega arith)
        | inr f ↦ rw f (
            after_in_place-once _ outdated cp b.tcp
              (reconcile_in_place_updates lib w.in_place b.tcp cp outdated) quiet)
      ]

  after_sync-once :
      (cp : ControlPlane) (tcp : ControlPlaneObject) (s : Synced)
      → count is_change (after_sync lib w cp tcp s).effects ≤ 1
  after_sync-once cp tcp s = elim (Option-cases s.error) [
    | inr (e, p) ↦ rw p (omega (arith, patches-count s.patched))
    | inl p ↦ rw p (
        after_bootstrap-once (tagged patches s.patched) (record cp { machines = s.machines })
          (bootstrap_step lib w s.machines tcp) (patches-count s.patched))
  ]

  -- One reconcile of the machines, whatever it meets, asks for the creation of a machine or for the
  -- deletion of one at most once: never for two, and never for both.
  pub reconcile_machines-once :
      (tcp : ControlPlaneObject) (machines : List Machine)
      → count is_change (reconcile_machines lib w tcp machines).effects ≤ 1
  unfolding reconcile_machines
  reconcile_machines-once tcp machines =
      elim (Result-cases (new_control_plane w.read_infra w.read_talos w.domains machines)) [
        | inl (e, p) ↦ rw (p, reconcile_machines) (omega arith)
        | inr (cp, p) ↦
            rw (p, reconcile_machines)
              (after_sync-once cp tcp (
                reconcile_machine_template_state lib w.up.rules w.patcher w.up.cluster_name tcp
                  machines))
      ]
