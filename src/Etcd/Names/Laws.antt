-- ===== src/Etcd/Names/Laws.antt =====
-- The form of the names that identify a machine's etcd member.
use cluster_api_control_plan.Base.{
  ℕ, ◌<◌, ◌≡◌, ◌≢◌, ◌⊎◌, true, false, List, [], ◌∷◌, ◌++◌, String, map, All, arith, before, codes,
  lower_code, inl, inr, Bool-cases,
}
use cluster_api_control_plan.Objects.{Machine}
use cluster_api_control_plan.Etcd.Names.{
  normalized_names, node_name, hostnames, node_names_for_machine, is_empty, contains,
}

-- A character that a normalised name may hold: no dot, and no upper case letter.
abbrev pub IsPlain : ℕ → Type 0
IsPlain c = (c ≢ b'.') × ((c < b'A') ⊎ (b'Z' < c))

-- A host label: not empty, of plain characters.
abbrev pub IsHostLabel : List ℕ → Type 0
IsHostLabel name = (name ≢ []) × All IsPlain name

lower_code-IsPlain : (c : ℕ) → c ≢ b'.' → IsPlain (lower_code c)
lower_code-IsPlain c h = ground arith

lower-IsPlain : (cs : List ℕ) → All IsPlain (map lower_code (before b'.' cs))
lower-IsPlain [] = tt
lower-IsPlain (c ∷ cs) = ground (arith, lower_code-IsPlain c, lower-IsPlain cs)

map-not_nil : (cs : List ℕ) → is_empty cs ≡ false → map lower_code cs ≢ []
map-not_nil [] h = absurd (cc)
map-not_nil (c ∷ cs) h = λ e. cc

normalized_names-IsHostLabel : (ss : List String) → All IsHostLabel (normalized_names ss)
unfolding normalized_names
normalized_names-IsHostLabel [] = tt
normalized_names-IsHostLabel (s ∷ ss) = elim (Bool-cases (is_empty (before b'.' (codes s)))) [
  | inl t ↦ rw t (normalized_names-IsHostLabel ss)
  | inr f ↦ rw f (
    (map-not_nil (before b'.' (codes s)) f, lower-IsPlain (codes s)),
    normalized_names-IsHostLabel ss,
  )
]

-- Every name of a machine is a host label: not empty, without a dot and without an upper case
-- letter.
pub node_names_for_machine-IsHostLabel : (m : Machine) → All IsHostLabel (node_names_for_machine m)
unfolding node_names_for_machine
node_names_for_machine-IsHostLabel m =
    normalized_names-IsHostLabel (node_name m.node_ref ∷ hostnames m.addresses)

contains-append :
    (xs ys : List (List ℕ)) (name : List ℕ)
    → contains (xs ++ ys) name ≡ true
    → (contains xs name ≡ true) ⊎ (contains ys name ≡ true)
contains-append [] ys name h = inr h
contains-append (x ∷ xs) ys name h = ground (arith, contains-append xs ys name)
