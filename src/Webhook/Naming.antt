-- ===== src/Webhook/Naming.antt =====
-- api/v1beta1/machine_naming.go: the names of new machines. A name is the list of its bytes.
use cluster_api_control_plan.Base.{
  ℕ, zero, suc, ◌+◌, ◌-◌, ◌≤◌, ◌≡◌, Option, none, some, List, [], ◌∷◌, ◌++◌, String, length, ltb,
  str_eq, if◌then◌else◌, inl, inr, Bool-cases, arith, Result, ok, err,
}

abbrev pub max_name_length : ℕ
max_name_length = 63

abbrev pub random_length : ℕ
random_length = 5

abbrev pub max_generated_name_length : ℕ
max_generated_name_length = max_name_length - random_length

abbrev pub default_template : String
default_template = "{{ .talosControlPlane.name }}-{{ .random }}"

-- Parses the template and executes it for the names of the cluster and of the control plane, and a
-- random text.
abbrev pub Execute : Type 0
Execute = String → String → String → List ℕ → Result (List ℕ)

abbrev pub take : ℕ → List ℕ → List ℕ
take zero xs = []
take (suc n) [] = []
take (suc n) (x ∷ xs) = x ∷ take n xs

abbrev pub template_of : Option String → String
template_of none = default_template
template_of (some t) = if str_eq t "" then default_template else t

unfoldable pub trimmed : List ℕ → List ℕ → List ℕ
trimmed suffix name =
    if ltb max_name_length (length name)
    then take max_generated_name_length name ++ suffix
    else name

-- renderTalosControlPlaneMachineName. `suffix` is the random text of a name that is too long.
unfoldable pub render_machine_name :
    Execute → List ℕ → Option String → String → String → List ℕ → Result (List ℕ)
unfolding trimmed
render_machine_name execute suffix strategy cluster tcp random =
    elim (execute (template_of strategy) cluster tcp random) [
      | err e ↦ err e
      | ok name ↦ ok (trimmed suffix name)
    ]

-- generateTalosControlPlaneMachineName, given the random texts that it draws
unfoldable pub generate_machine_name :
    Execute → List ℕ → List ℕ → Option String → String → String → Result (List ℕ)
unfolding render_machine_name
generate_machine_name execute random suffix strategy cluster tcp =
    render_machine_name execute suffix strategy cluster tcp random

length-take : (n : ℕ) (xs : List ℕ) → length (take n xs) ≤ n
length-take zero xs = omega arith
length-take (suc n) [] = omega arith
length-take (suc n) (x ∷ xs) = omega (arith, length-take n xs)

length-append : (xs ys : List ℕ) → length (xs ++ ys) ≡ length xs + length ys
length-append [] ys = omega arith
length-append (x ∷ xs) ys = omega (arith, length-append xs ys)

pub length-trimmed :
    (suffix name : List ℕ)
    → length suffix ≤ random_length
    → length (trimmed suffix name) ≤ max_name_length
unfolding trimmed
length-trimmed suffix name h = elim (Bool-cases (ltb max_name_length (length name))) [
  | inl t ↦ rw t (omega (arith, length-append (take 58 name) suffix, length-take 58 name))
  | inr f ↦ rw f (ground arith)
]
