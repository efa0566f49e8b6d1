-- ===== src/Boot/Tests.antt =====
-- The creation of a fourth machine.
use cluster_api_control_plan.Base.{some_inj, ◌≡◌, some, List, [], ◌∷◌, In, refl, sym, lookup}
use cluster_api_control_plan.Objects.{Machine, ObjectRef}
use cluster_api_control_plan.Rollout.{
  ControlPlane, InfraObject, TalosConfig, machines_needing_rollout,
}
use cluster_api_control_plan.Boot.{
  Effect, clones, creates_config, creates_machine, new_machine, boot_control_plane,
}
use cluster_api_control_plan.Boot.Laws.{Ends, new_machine-IsNew, boot_control_plane-Ends}
use cluster_api_control_plan.Boot.Rolled.{IsReadBack, machines_needing_rollout-new}
use cluster_api_control_plan.Samples.{library, template_ref, talos_config}
use cluster_api_control_plan.Samples.Worlds.{
  rolling_plane, mixed, label_rules, pick_first, boot_env, infra_of, config_of,
}

boot_control_plane-Ends_example :
    Ends library label_rules pick_first boot_env "c" mixed rolling_plane
      (boot_control_plane library label_rules pick_first boot_env "c" mixed rolling_plane)
boot_control_plane-Ends_example =
    boot_control_plane-Ends library label_rules pick_first boot_env "c" mixed rolling_plane

abbrev cloned_ref : ObjectRef
cloned_ref = record template_ref { kind = "Metal"; name = "cp-d" }

abbrev fourth : Machine
fourth =
    new_machine library label_rules pick_first boot_env "c" mixed rolling_plane "cp-d" cloned_ref

abbrev effects : List Effect
effects =
    clones template_ref "cp-d"
    ∷ creates_config "cp-d" rolling_plane.config
    ∷ creates_machine fourth
    ∷ []

-- The control plane as it is read at the next reconcile.
abbrev next : ControlPlane
next = record mixed {
  machines = fourth ∷ mixed.machines;
  infra_objects = ("cp-d", infra_of "cp-d") ∷ [];
  talos_configs = ("cp-d", config_of "cp-d") ∷ [];
}

fourth-IsReadBack : IsReadBack library rolling_plane next fourth
unfolding new_machine lookup
fourth-IsReadBack = record {
  version = λ _. refl;
  cloned = λ obj e. is_clone (infra_of "cp-d") obj e refl refl;
  configured = λ c e. is_config (config_of "cp-d") c e refl;
}
  where
    is_clone :
        (a b : InfraObject)
        → some a ≡ some b
        → lookup "cloned-from-name" a.annotations ≡ some "metal"
        → lookup "cloned-from-groupkind" a.annotations ≡ some "MetalTemplate"
        → (lookup "cloned-from-name" b.annotations ≡ some "metal")
          × (lookup "cloned-from-groupkind" b.annotations ≡ some "MetalTemplate")
    is_clone a b e n g = rw (sym (some_inj e)) (n, g)

    is_config :
        (a b : TalosConfig) → some a ≡ some b → a.spec ≡ talos_config → b.spec ≡ talos_config
    is_config a b e h = rw (some_inj e) at h

machines_needing_rollout-new_example :
    ¬ (In fourth (machines_needing_rollout library rolling_plane next))
machines_needing_rollout-new_example =
    machines_needing_rollout-new library rolling_plane next label_rules pick_first boot_env "c"
      mixed fourth effects
      (new_machine-IsNew library label_rules pick_first boot_env "c" mixed rolling_plane "cp-d"
        template_ref cloned_ref refl refl refl)
      fourth-IsReadBack
