-- ===== src/Rollout/Tests.antt =====
-- A rollout of a control plane with one machine of an older version.
use cluster_api_control_plan.Base.{
  ◌≡◌, ◌↔◌, ◌⊎◌, inl, true, false, [], ◌∷◌, In, filter, deref, refl, lookup,
}
use cluster_api_control_plan.Objects.{is_deleting}
use cluster_api_control_plan.Scale.{FailureDomain}
use cluster_api_control_plan.Rollout.{machines_needing_rollout, next_failure_domain_for_scale_up}
use cluster_api_control_plan.Rollout.Laws.{IsOutdated, machines_needing_rollout_iff}
use cluster_api_control_plan.Rollout.Placement.{Picks, next_failure_domain_for_scale_up-IsPlaced}
use cluster_api_control_plan.Samples.{library}
use cluster_api_control_plan.Samples.Worlds.{rolling_plane, mixed, old_a, pick_first}

-- The old machine is the only one that needs a rollout.
rolls_out_old : machines_needing_rollout library rolling_plane mixed ≡ old_a ∷ []
unfolding machines_needing_rollout lookup cluster_api_control_plan.Rollout.matches_spec
rolls_out_old = refl

machines_needing_rollout_iff_example :
    In old_a (machines_needing_rollout library rolling_plane mixed)
    ↔ In old_a mixed.machines
      × (is_deleting old_a ≡ false)
      × IsOutdated library rolling_plane mixed old_a
machines_needing_rollout_iff_example =
    machines_needing_rollout_iff library rolling_plane mixed old_a refl

pick_first-Picks : Picks pick_first
pick_first-Picks d ds all up_to_date = (d, inl refl, refl)

next_failure_domain_for_scale_up-IsPlaced_example :
    ((mixed.domains ≡ [])
      × (next_failure_domain_for_scale_up library rolling_plane pick_first mixed ≡ ""))
    ⊎ ((x : FailureDomain) × In x mixed.domains
        × (x.name ≡ next_failure_domain_for_scale_up library rolling_plane pick_first mixed)
        × ((deref x.control_plane false ≡ true)
            ⊎ (filter (λ (d : FailureDomain). deref d.control_plane false) mixed.domains ≡ [])))
next_failure_domain_for_scale_up-IsPlaced_example =
    next_failure_domain_for_scale_up-IsPlaced library rolling_plane pick_first mixed
      pick_first-Picks
