-- ===== src/Etcd/Membership.antt =====
-- controllers/etcd.go: the verification of an etcd member list against the machines.
pub mod Laws
mod Tests
use cluster_api_control_plan.Base.{
  ℕ, zero, suc, ◌-◌, Bool, true, false, not, Option, none, some, List, [], ◌∷◌, ◌++◌, String, any,
  filter, find?, length, to_lower, ltb, if◌then◌else◌, Message, Error, Result, ok, err, say, about,
  counts, map,
}
use cluster_api_control_plan.Objects.{Machine, Member}
use cluster_api_control_plan.Etcd.Names.{node_names_for_machine, etcd_member_names, contains}

-- A machine that must be a member, and its host names.
pub record Expected : Type 0 where
  pub machine : String
  pub names : List (List ℕ)

pub record EtcdMembership : Type 0 where
  pub expected : List Expected
  pub pending : List String
  pub owned : List (List ℕ)

abbrev pub add_machine : Machine → List (List ℕ) → EtcdMembership → EtcdMembership
add_machine m [] rest = record rest { pending = m.name ∷ rest.pending }
add_machine m (name ∷ names) rest = record rest {
  expected = record { machine = m.name; names = name ∷ names } ∷ rest.expected;
}

-- The loop of newEtcdMembership. Machines have different names, so no entry replaces another.
unfoldable pub with_machines : List (List ℕ) → List Machine → EtcdMembership
with_machines owned [] = record { expected = []; pending = []; owned = owned }
with_machines owned (m ∷ ms) = add_machine m (node_names_for_machine m) (with_machines owned ms)

unfoldable pub new_etcd_membership : List Machine → List Machine → EtcdMembership
unfolding with_machines
new_etcd_membership owned_machines machines =
    with_machines (etcd_member_names owned_machines) machines

unfoldable pub present_names : List Member → List (List ℕ)
present_names members = map (λ (m : Member). to_lower m.hostname) members

-- The members of no owned machine.
unfoldable pub unowned : EtcdMembership → List Member → List Member
unowned s members = filter (λ m. not (contains s.owned (to_lower m.hostname))) members

abbrev pub has_member : List (List ℕ) → Expected → Bool
has_member present e = any (contains present) e.names

-- The members in front of the number are dropped: `unmatched[n:]`.
abbrev pub from_index : ℕ → List Member → List Member
from_index _ [] = []
from_index zero ms = ms
from_index (suc n) (_ ∷ ms) = from_index n ms

abbrev hostname_of : List Member → String
hostname_of [] = ""
hostname_of (m ∷ _) = m.hostname

-- The `switch` on the number of the members that match no machine.
unfoldable pub verify_pending :
    List (List ℕ) → List String → String → List Member → Result (List (List ℕ))
verify_pending present pending node unmatched =
    if ltb (length pending) (length unmatched)
    then err (
        Message.both (about "etcd member of the list does not match any control plane machine" node)
          (say (hostname_of (from_index (length pending) unmatched))))
    else if ltb (length unmatched) (length pending)
    then err (
        Message.both (about "etcd is missing members" node) (
          counts "for control plane machines without a noderef yet"
            (length pending - length unmatched) 0 0))
    else ok present

-- verify. Go visits the expected machines in any order, so which of the missing ones the error
-- names is not determined there.
unfoldable pub verify : EtcdMembership → String → List Member → Result (List (List ℕ))
unfolding present_names unowned verify_pending
verify s node members = elim (find? (λ e. not (has_member (present_names members) e)) s.expected) [
  | some e ↦ err (Message.both (about "etcd is missing a member" node) (say e.machine))
  | none ↦ verify_pending (present_names members) s.pending node (unowned s members)
]

-- compareEtcdMembers: sets of names as lists.
unfoldable pub compare_etcd_members : String → List (List ℕ) → String → List (List ℕ) → Option Error
compare_etcd_members node members previous_node previous =
    elim (find? (λ name. not (contains previous name)) members) [
      | some _ ↦ some (Message.both (about "etcd member is not known to" previous_node) (say node))
      | none ↦ elim (find? (λ name. not (contains members name)) previous) [
        | some _ ↦ some (
            Message.both (about "etcd member known to the other is missing" node)
              (say previous_node))
        | none ↦ none
      ]
    ]
