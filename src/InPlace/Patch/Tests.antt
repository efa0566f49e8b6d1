-- ===== src/InPlace/Patch/Tests.antt =====
-- An extension that takes a machine to the desired version.
use cluster_api_control_plan.Base.{◌≡◌, true, ok, refl, lookup}
use cluster_api_control_plan.InPlace.Patch.{can_update_machine}
use cluster_api_control_plan.InPlace.Patch.Laws.{CanUpdate, can_update_machine-CanUpdate}
use cluster_api_control_plan.Samples.Worlds.{mixed, json, extensions, plan}

takes_it : can_update_machine json extensions plan mixed ≡ ok true
unfolding can_update_machine lookup cluster_api_control_plan.InPlace.Patch.raw_config
    cluster_api_control_plan.InPlace.Patch.raw_infra
    cluster_api_control_plan.InPlace.Patch.clean_machine
takes_it = refl

can_update_machine-CanUpdate_example : CanUpdate json extensions plan mixed
can_update_machine-CanUpdate_example =
    can_update_machine-CanUpdate json extensions plan mixed takes_it
