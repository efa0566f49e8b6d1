-- ===== src/Boot/Labels/Tests.antt =====
-- The hash of the empty text is the offset basis, and that of "a" is known.
use cluster_api_control_plan.Base.{◌≡◌, refl}
use cluster_api_control_plan.Boot.Labels.{fnv32a, hex}
use cluster_api_control_plan.Boot.Labels.Laws.{IsLabelOf, must_format_value-IsLabel}
use cluster_api_control_plan.Samples.Worlds.{label_rules}

hash_of_a : hex (fnv32a "a") ≡ "e40c292c"
unfolding fnv32a hex
hash_of_a = refl

hash_of_nothing : hex (fnv32a "") ≡ "811c9dc5"
unfolding fnv32a hex
hash_of_nothing = refl

hash_of_foobar : hex (fnv32a "foobar") ≡ "bf9cf968"
unfolding fnv32a hex
hash_of_foobar = refl

-- A label rule that takes no text but "cp".
must_format_value-IsLabel_example : IsLabelOf label_rules "foobar"
must_format_value-IsLabel_example = must_format_value-IsLabel label_rules "foobar"
