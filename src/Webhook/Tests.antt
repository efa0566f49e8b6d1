-- ===== src/Webhook/Tests.antt =====
-- A control plane without defaults, names of machines, and an update.
use cluster_api_control_plan.Base.{
  ℕ, ◌≡◌, ◌≢◌, none, ok, List, [], ◌∷◌, ◌++◌, String, codes, refl, arith, lookup,
}
use cluster_api_control_plan.Rollout.{machines_needing_rollout}
use cluster_api_control_plan.Webhook.{
  Spec, default_rollout_strategy, default_spec, validate_rollout_strategy,
}
use cluster_api_control_plan.Webhook.Naming.{
  Execute, template_of, render_machine_name, generate_machine_name, trimmed,
}
use cluster_api_control_plan.Webhook.Laws.{
  IsShortName, default_spec_idem, generate_machine_name-IsShortName,
}
use cluster_api_control_plan.Webhook.Rollout.{Scales, upgrade_control_plane-Scales}
use cluster_api_control_plan.Samples.{library, control_plane, talos_config}
use cluster_api_control_plan.Samples.Worlds.{rolling_plane, mixed, up_world}

abbrev bare : Spec
bare = record {
  replicas = none;
  version = "1.30.0";
  template = control_plane.template;
  naming = none;
  config = talos_config;
  strategy = none;
  remediation = control_plane.remediation;
}

default_spec_idem_example : default_spec (default_spec bare) ≡ default_spec bare
default_spec_idem_example = default_spec_idem bare

-- The name of the control plane, a dash and the random text.
abbrev execute : Execute
execute template cluster tcp random = ok (codes tcp ++ b'-' ∷ random)

abbrev random : List ℕ
random = codes "abcde"

abbrev long_name : String
long_name = "a-control-plane-with-a-name-of-more-than-sixty-three-characters"

-- A name that is too long loses its end.
long_name_is_cut :
    generate_machine_name execute random (codes "vwxyz") none "c" long_name
    ≡ ok (codes "a-control-plane-with-a-name-of-more-than-sixty-three-charavwxyz")
unfolding generate_machine_name render_machine_name trimmed
long_name_is_cut = refl

generate_machine_name-IsShortName_example :
    (rendered : List ℕ) × (execute (template_of none) "c" long_name random ≡ ok rendered)
    × IsShortName
        (codes "vwxyz")
        rendered
        (codes "a-control-plane-with-a-name-of-more-than-sixty-three-charavwxyz")
generate_machine_name-IsShortName_example =
    generate_machine_name-IsShortName execute random (codes "vwxyz") (omega arith) none "c"
      long_name (codes "a-control-plane-with-a-name-of-more-than-sixty-three-charavwxyz")
      long_name_is_cut

accepted : validate_rollout_strategy bare.strategy ≡ []
unfolding validate_rollout_strategy
accepted = refl

defaulted : rolling_plane.strategy ≡ default_rollout_strategy bare.strategy
unfolding default_rollout_strategy
defaulted = refl

one_is_old : machines_needing_rollout library rolling_plane mixed ≢ []
unfolding machines_needing_rollout lookup cluster_api_control_plan.Rollout.matches_spec
one_is_old h = cc

upgrade_control_plane-Scales_example :
    Scales library up_world mixed rolling_plane
      (machines_needing_rollout library rolling_plane mixed)
upgrade_control_plane-Scales_example =
    upgrade_control_plane-Scales library up_world mixed rolling_plane bare.strategy accepted
      defaulted one_is_old
