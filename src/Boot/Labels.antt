-- ===== src/Boot/Labels.antt =====
-- controllers/taloscontrolplane_controller.go: the labels of a control plane machine.
mod Laws
mod Tests
use Prim.Native.Nat.{bit_xor, ◌^◌}
use Prim.Native.Char.{Char}
use Prim.Native.String
use cluster_api_control_plan.Base.{
  ℕ, zero, suc, ◌+◌, ◌*◌, ◌/◌, ◌%◌, Bool, true, false, List, [], ◌∷◌, String, codes, ltb, ◌==◌,
  if◌then◌else◌, insert, Map,
}
use cluster_api_control_plan.Objects.{ControlPlaneObject, Library}

-- validation.IsValidLabelValue of apimachinery: whether it finds nothing to object to.
pub record LabelRules : Type 0 where
  pub is_valid_label_value : String → Bool

-- fnv.New32a over the bytes of an ASCII text: a name of a Kubernetes object is one.
unfoldable pub fnv32a_from : ℕ → List ℕ → ℕ
fnv32a_from hash [] = hash
fnv32a_from hash (b ∷ bs) = fnv32a_from (bit_xor hash b * 16777619 % 2 ^ 32) bs

unfoldable pub fnv32a : String → ℕ
unfolding fnv32a_from
fnv32a s = fnv32a_from 2166136261 (codes s)

abbrev char_at : String → ℕ → Char
char_at String.[] n = "0"
char_at (String.◌∷◌ c s) zero = c
char_at (String.◌∷◌ c s) (suc n) = char_at s n

-- The table of fmt: a digit of a number below 16.
unfoldable pub digit : ℕ → Char
digit n = char_at "0123456789abcdef" n

-- The hexadecimal digits of a number in front of a text. Every digit takes one of the fuel.
unfoldable pub hex_from : ℕ → ℕ → String → String
unfolding digit
hex_from zero n rest = rest
hex_from (suc fuel) n rest =
    let more = hex_from fuel (n / 16) (String.◌∷◌ (digit (n % 16)) rest) in
    if ltb n 16 then String.◌∷◌ (digit n) rest else more

-- `fmt.Sprintf("%x", n)` of a 32-bit number
unfoldable pub hex : ℕ → String
unfolding hex_from
hex n = hex_from 8 n ""

unfoldable pub must_format_value : LabelRules → String → String
unfolding fnv32a hex
must_format_value rules s = if rules.is_valid_label_value s then s else hex (fnv32a s)

unfoldable pub control_plane_machine_labels_for_cluster :
    Library → LabelRules → ControlPlaneObject → String → Map String
control_plane_machine_labels_for_cluster lib rules tcp cluster_name =
    insert lib.control_plane_name_label (must_format_value rules tcp.name) (
      insert lib.control_plane_label "" (insert lib.cluster_label cluster_name tcp.template.labels))
