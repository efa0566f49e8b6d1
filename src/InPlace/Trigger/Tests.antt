-- ===== src/InPlace/Trigger/Tests.antt =====
-- An update in place of a machine of an older version.
use cluster_api_control_plan.Base.{refl, ◌≡◌, [], ◌∷◌, lookup}
use cluster_api_control_plan.Objects.{Machine, plain}
use cluster_api_control_plan.Hooks
use cluster_api_control_plan.InPlace.Trigger.{mark_pending, trigger_in_place_update}
use cluster_api_control_plan.InPlace.Trigger.Laws.{IsCommitted, trigger_in_place_update-IsCommitted}
use cluster_api_control_plan.Samples.{library, cp_a}
use cluster_api_control_plan.Samples.Worlds.{client, plan}

trigger_in_place_update-IsCommitted_example :
    IsCommitted library client plan (trigger_in_place_update library client plan)
trigger_in_place_update-IsCommitted_example =
    trigger_in_place_update-IsCommitted library client plan (refl, tt) refl

abbrev marked_a : Machine
marked_a = record cp_a { annotations = (library.pending_hooks, plain library.update_machine) ∷ [] }

-- A hook that is listed is not patched again.
listed_is_not_patched : (mark_pending library client marked_a).effects ≡ []
unfolding mark_pending lookup Hooks.is_marked Hooks.add_to_list Hooks.text_of Hooks.join
    Hooks.add_words Hooks.add_word Hooks.words_of Hooks.split
listed_is_not_patched = refl
