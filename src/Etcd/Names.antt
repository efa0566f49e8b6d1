-- ===== src/Etcd/Names.antt =====
-- controllers/etcd.go: the host names of a machine, and the etcd member that they identify.
mod Laws
mod Identify
mod Tests
use cluster_api_control_plan.Base.{
  ℕ, Bool, true, false, ◌&&◌, ◌||◌, not, Option, none, some, List, [], ◌∷◌, ◌++◌, String, map, any,
  filter, find?, length, codes, to_lower, before, codes_eq, lower_code, str_eq, leb, ◌==◌,
  if◌then◌else◌,
}
use cluster_api_control_plan.Objects.{AddressType, host_name, Address, Machine, same_name, Member}

abbrev is_host_name : AddressType → Bool
is_host_name host_name = true
is_host_name _ = false

abbrev hostnames : List Address → List String
hostnames [] = []
hostnames (a ∷ rest) = if is_host_name a.kind then a.address ∷ hostnames rest else hostnames rest

-- The nodeRef name, which is empty where the nodeRef is not defined.
abbrev node_name : Option String → String
node_name none = ""
node_name (some s) = s

-- `strings.Cut(hostname, ".")`, then `strings.ToLower`.
abbrev normalized : String → List ℕ
normalized s = map lower_code (before b'.' (codes s))

abbrev is_empty : List ℕ → Bool
is_empty [] = true
is_empty _ = false

-- The loop over the candidates: a name with nothing in front of its first dot is skipped.
unfoldable pub normalized_names : List String → List (List ℕ)
normalized_names [] = []
normalized_names (s ∷ ss) =
    if is_empty (before b'.' (codes s))
    then normalized_names ss
    else normalized s ∷ normalized_names ss

unfoldable pub node_names_for_machine : Machine → List (List ℕ)
unfolding normalized_names
node_names_for_machine m = normalized_names (node_name m.node_ref ∷ hostnames m.addresses)

-- A set of names, as the list of what was put into it.
unfoldable pub etcd_member_names : List Machine → List (List ℕ)
unfolding node_names_for_machine
etcd_member_names [] = []
etcd_member_names (m ∷ ms) = node_names_for_machine m ++ etcd_member_names ms

-- `_, ok := names[name]`, and `slices.Contains`.
abbrev pub contains : List (List ℕ) → List ℕ → Bool
contains names name = any (codes_eq name) names

unfoldable pub etcd_member_matches_machine : Member → Machine → Bool
unfolding node_names_for_machine
etcd_member_matches_machine member m =
    contains (node_names_for_machine m) (to_lower member.hostname)

unfoldable pub find_etcd_member : List Member → Machine → Option Member
unfolding etcd_member_matches_machine
find_etcd_member members m = find? (λ member. etcd_member_matches_machine member m) members

unfoldable pub others_than : Machine → List Machine → List Machine
others_than m machines = filter (λ other. not (same_name other m)) machines

-- The members that match no machine of the list.
unfoldable pub unmatched_members : List Member → List Machine → List Member
unfolding etcd_member_matches_machine
unmatched_members members others =
    filter (λ member. not (any (etcd_member_matches_machine member) others)) members

-- The `switch` over the unmatched members.
unfoldable pub by_elimination : List Member → List Machine → Option Member × Bool
unfolding node_names_for_machine
by_elimination [] others = (none, true)
by_elimination (member ∷ []) others =
    if any (λ other. length (node_names_for_machine other) == 0) others
    then (none, false)
    else (some member, true)
by_elimination (_ ∷ _ ∷ _) others = (none, false)

-- The member, and whether it is known.
unfoldable pub identify_etcd_member : List Member → Machine → List Machine → Option Member × Bool
unfolding node_names_for_machine find_etcd_member others_than unmatched_members by_elimination
identify_etcd_member members m machines =
    let others = others_than m machines in
    if leb 1 (length (node_names_for_machine m))
    then (find_etcd_member members m, true)
    else by_elimination (unmatched_members members others) others
