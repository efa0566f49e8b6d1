-- ===== src/Hooks/Tests.antt =====
-- Lists of hooks as texts.
use cluster_api_control_plan.Base.{◌≡◌, ◌||◌, none, List, [], ◌∷◌, String, refl}
use cluster_api_control_plan.Hooks.{has_word, add_to_list, is_pending, mark_as_pending}
use cluster_api_control_plan.Hooks.Laws.{AreWords, mark_as_pending-is_pending}
use cluster_api_control_plan.Samples.{library}

abbrev hooks : List String
hooks = "AfterUpgrade" ∷ "UpdateMachine" ∷ []

are_words : AreWords hooks
are_words = (refl, (refl, tt))

list_is_sorted : add_to_list "UpdateMachine" hooks ≡ "AfterUpgrade,UpdateMachine"
unfolding add_to_list
list_is_sorted = refl

mark_as_pending-is_pending_example :
    is_pending library "UpdateMachine" (mark_as_pending library none hooks []).0
    ≡ (has_word "UpdateMachine" hooks || is_pending library "UpdateMachine" [])
mark_as_pending-is_pending_example =
    mark_as_pending-is_pending library none hooks [] "UpdateMachine" are_words refl
