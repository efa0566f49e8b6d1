-- ===== src/Quorum/Removal.antt =====
-- The removal check against its specification: no learner, and a healthy majority both before and
-- after the member leaves.
use cluster_api_control_plan.Base.{
  ℕ, ◌+◌, ◌*◌, ◌<◌, ◌≡◌, ◌↔◌, Bool, true, ◌&&◌, ◌||◌, not, List, [], ◌∷◌, any, count, length,
  filter, if◌then◌else◌, Map, String, arith, count_mono,
}
use cluster_api_control_plan.Objects.{Machine, Member}
use cluster_api_control_plan.Etcd.Names.{etcd_member_matches_machine, others_than}
use cluster_api_control_plan.Quorum.{
  Tally, no_tally, is_healthy, is_backed, tally_member, tally_members, judge_removal,
  can_safely_remove_etcd_member,
}

abbrev pub voters : List Member → List Member
voters = filter (λ member. not member.is_learner)

-- The list without the first element that passes the test.
abbrev pub without_first {ℓ} : {A : Type ℓ} → (A → Bool) → List A → List A
without_first p [] = []
without_first p (x ∷ xs) = if p x then xs else x ∷ without_first p xs

abbrev is_target : Machine → Member → Bool
is_target target member = etcd_member_matches_machine member target

-- The voting members that stay.
abbrev pub remaining : Machine → List Member → List Member
remaining target members = without_first (is_target target) (voters members)

abbrev pub target_votes : Machine → List Member → Bool
target_votes target members = any (is_target target) (voters members)

-- Of `voting` members more than half are healthy.
abbrev pub HasMajority : ℕ → ℕ → Type 0
HasMajority healthy voting = voting < 2 * healthy

-- What makes the removal of the target's member safe. The first majority commits the removal, the
-- second is that of the members that stay.
pub record IsSafeRemoval (members : List Member) (target : Machine) (machines : List Machine)
    (healthy : Map Bool) : Type 0 where
  pub no_learner : count (λ member. member.is_learner) members ≡ 0
  pub majority_now :
      HasMajority
        (count (is_backed healthy (others_than target machines)) (remaining target members)
          + (if target_votes target members && is_healthy healthy target.name then 1 else 0))
        (length (remaining target members) + (if target_votes target members then 1 else 0))
  pub majority_after :
      HasMajority
        (count (is_backed healthy (others_than target machines)) (remaining target members))
        (length (remaining target members))

module _ (target : Machine) (machines : List Machine) (healthy : Map Bool) where
  abbrev left : Bool → List Member → List Member
  left found members = if found then voters members else remaining target members

  abbrev backed : Member → Bool
  backed = is_backed healthy (others_than target machines)

  tally_learners :
      (t : Tally) (members : List Member)
      → (tally_members target machines healthy t members).learners
        ≡ t.learners + count (λ member. member.is_learner) members
  unfolding tally_members
  tally_learners t [] = omega arith
  tally_learners t (m ∷ ms) =
      ground (arith, tally_learners (tally_member target machines healthy t m) ms)

  tally_found :
      (t : Tally) (members : List Member)
      → (tally_members target machines healthy t members).found
        ≡ (t.found || target_votes target members)
  unfolding tally_members
  tally_found t [] = ground arith
  tally_found t (m ∷ ms) = ground (arith, tally_found (tally_member target machines healthy t m) ms)

  tally_voting :
      (t : Tally) (members : List Member)
      → (tally_members target machines healthy t members).voting
        ≡ t.voting + length (left t.found members)
  unfolding tally_members
  tally_voting t [] = ground arith
  tally_voting t (m ∷ ms) =
      ground (arith, tally_voting (tally_member target machines healthy t m) ms)

  tally_healthy :
      (t : Tally) (members : List Member)
      → (tally_members target machines healthy t members).healthy
        ≡ t.healthy + count backed (left t.found members)
  unfolding tally_members
  tally_healthy t [] = ground arith
  tally_healthy t (m ∷ ms) =
      ground (arith, tally_healthy (tally_member target machines healthy t m) ms)

-- A member is judged safe to remove exactly when no member is a learner, a majority of the current
-- voting members is healthy, and a majority of the voting members that stay is healthy, where a
-- member is healthy if a healthy machine other than the target runs it.
pub can_safely_remove_etcd_member_iff :
    (members : List Member) (target : Machine) (machines : List Machine) (healthy : Map Bool)
    → ((can_safely_remove_etcd_member members target machines healthy).0 ≡ true)
      ↔ IsSafeRemoval members target machines healthy
unfolding can_safely_remove_etcd_member judge_removal
can_safely_remove_etcd_member_iff members target machines healthy = (
  λ h. record {
    no_learner = ground (arith, tally_learners target machines healthy no_tally members);
    majority_now = ground (
      arith,
      tally_found target machines healthy no_tally members,
      tally_voting target machines healthy no_tally members,
      tally_healthy target machines healthy no_tally members,
    );
    majority_after = ground (
      arith,
      tally_voting target machines healthy no_tally members,
      tally_healthy target machines healthy no_tally members,
    );
  },
  λ s. ground (
    arith,
    tally_learners target machines healthy no_tally members,
    tally_found target machines healthy no_tally members,
    tally_voting target machines healthy no_tally members,
    tally_healthy target machines healthy no_tally members,
  ),
)

-- Every machine that the first map says is healthy is so in the second.
abbrev pub IsHealthier : Map Bool → Map Bool → Type 0
IsHealthier h k = (name : String) → is_healthy h name ≡ true → is_healthy k name ≡ true

pub is_backed_mono :
    (h k : Map Bool)
    → IsHealthier h k
    → (machines : List Machine) (member : Member) → is_backed h machines member ≡ true
    → is_backed k machines member ≡ true
unfolding is_backed
is_backed_mono h k more [] member e = cc
is_backed_mono h k more (m ∷ ms) member e =
    ground (arith, more m.name, is_backed_mono h k more ms member)

-- A removal that is judged safe stays so when more machines are healthy.
pub can_safely_remove_etcd_member_mono :
    (members : List Member) (target : Machine) (machines : List Machine) (h k : Map Bool)
    → IsHealthier h k
    → (can_safely_remove_etcd_member members target machines h).0 ≡ true
    → (can_safely_remove_etcd_member members target machines k).0 ≡ true
can_safely_remove_etcd_member_mono members target machines h k more safe =
    let s = (can_safely_remove_etcd_member_iff members target machines h).0 safe in
    let grows =
      count_mono (is_backed h (others_than target machines))
        (is_backed k (others_than target machines)) (remaining target members)
        (is_backed_mono h k more (others_than target machines)) in
    (can_safely_remove_etcd_member_iff members target machines k).1 (record {
      no_learner = s.no_learner;
      majority_now = ground (arith, grows, s.majority_now, more target.name);
      majority_after = omega (arith, grows, s.majority_after);
    })
