-- ===== src/Quorum/Addition.antt =====
-- The addition check against its specification.
use cluster_api_control_plan.Base.{
  ◌+◌, ◌≡◌, ◌↔◌, Bool, true, List, [], ◌∷◌, count, length, if◌then◌else◌, Map, arith, leb,
}
use cluster_api_control_plan.Objects.{Machine, Member}
use cluster_api_control_plan.Quorum.{
  Tally, no_tally, is_backed, count_member, count_members, judge_addition,
  can_safely_add_etcd_member_to,
}
use cluster_api_control_plan.Quorum.Removal.{voters, HasMajority}

-- What makes the addition of a member safe: no learner, and a healthy majority with the new member,
-- which counts as unhealthy where there is more than one voting member.
pub record IsSafeAddition (members : List Member) (machines : List Machine) (healthy : Map Bool)
    : Type 0 where
  pub no_learner : count (λ member. member.is_learner) members ≡ 0
  pub majority :
      HasMajority
        (count (is_backed healthy machines) (voters members)
          + (if leb (length (voters members)) 1 then 1 else 0))
        (length (voters members) + 1)

module _ (machines : List Machine) (healthy : Map Bool) where
  counted_learners :
      (t : Tally) (members : List Member)
      → (count_members machines healthy t members).learners
        ≡ t.learners + count (λ member. member.is_learner) members
  unfolding count_members
  counted_learners t [] = omega arith
  counted_learners t (m ∷ ms) =
      ground (arith, counted_learners (count_member machines healthy t m) ms)

  counted_voting :
      (t : Tally) (members : List Member)
      → (count_members machines healthy t members).voting ≡ t.voting + length (voters members)
  unfolding count_members
  counted_voting t [] = omega arith
  counted_voting t (m ∷ ms) = ground (arith, counted_voting (count_member machines healthy t m) ms)

  counted_healthy :
      (t : Tally) (members : List Member)
      → (count_members machines healthy t members).healthy
        ≡ t.healthy + count (is_backed healthy machines) (voters members)
  unfolding count_members
  counted_healthy t [] = omega arith
  counted_healthy t (m ∷ ms) =
      ground (arith, counted_healthy (count_member machines healthy t m) ms)

-- A member is judged safe to add exactly when no member is a learner and, with the new member
-- counted as unhealthy, a majority is healthy; with at most one voting member the new one counts as
-- healthy.
pub can_safely_add_etcd_member_to_iff :
    (members : List Member) (machines : List Machine) (healthy : Map Bool)
    → ((can_safely_add_etcd_member_to members machines healthy).0 ≡ true)
      ↔ IsSafeAddition members machines healthy
unfolding can_safely_add_etcd_member_to judge_addition
can_safely_add_etcd_member_to_iff members machines healthy = (
  λ h. record {
    no_learner = ground (arith, counted_learners machines healthy no_tally members);
    majority = ground (
      arith,
      counted_voting machines healthy no_tally members,
      counted_healthy machines healthy no_tally members,
    );
  },
  λ s. ground (
    arith,
    counted_learners machines healthy no_tally members,
    counted_voting machines healthy no_tally members,
    counted_healthy machines healthy no_tally members,
  ),
)
