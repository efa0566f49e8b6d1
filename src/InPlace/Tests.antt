-- ===== src/InPlace/Tests.antt =====
-- One machine of three is of an older version, and the extension takes it.
use cluster_api_control_plan.Base.{◌∷◌, []}
use cluster_api_control_plan.InPlace.{reconcile_in_place_updates}
use cluster_api_control_plan.InPlace.Laws.{IsOneAtATime, reconcile_in_place_updates-IsOneAtATime}
use cluster_api_control_plan.Samples.{library}
use cluster_api_control_plan.Samples.Worlds.{rolling_plane, mixed, old_a, in_place_world}

reconcile_in_place_updates-IsOneAtATime_example :
    IsOneAtATime library in_place_world rolling_plane mixed
      (old_a ∷ [])
      (reconcile_in_place_updates library in_place_world rolling_plane mixed (old_a ∷ []))
reconcile_in_place_updates-IsOneAtATime_example =
    reconcile_in_place_updates-IsOneAtATime library in_place_world rolling_plane mixed (old_a ∷ [])
