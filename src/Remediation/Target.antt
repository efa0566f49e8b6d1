-- ===== src/Remediation/Target.antt =====
-- controllers/remediation.go: the machine that is remediated first.
mod Laws
mod Tests
use cluster_api_control_plan.Base.{
  ℕ, Bool, true, false, ◌&&◌, not, Option, none, some, List, [], ◌∷◌, filter, head?, Cmp, compare,
  first, then_by, compare_string, sort_by,
}
use cluster_api_control_plan.Objects.{Machine, ControlPlaneObject, Library, has_node}
use cluster_api_control_plan.Quorum.{Statuses, status_of}

module _ (lib : Library) where
  unfoldable pub is_candidate : ControlPlaneObject → Machine → Bool
  is_candidate tcp m = lib.is_controlled_by m tcp && lib.is_unhealthy_and_owner_remediated m

  -- The comparison of `slices.SortStableFunc`.
  unfoldable pub most_broken : Statuses → Cmp Machine
  unfolding status_of
  most_broken statuses a b =
      then_by (first (lib.has_remediate_machine a) (lib.has_remediate_machine b)) (
        then_by (first (not (has_node a)) (not (has_node b))) (
          then_by
            (first (not (status_of statuses a.name).healthy)
              (not (status_of statuses b.name).healthy))
            (then_by (compare a.created b.created) (compare_string a.name b.name))))

  unfoldable pub machine_to_be_remediated :
      ControlPlaneObject → List Machine → Statuses → Option Machine
  unfolding is_candidate most_broken
  machine_to_be_remediated tcp machines statuses =
      head? (sort_by (most_broken statuses) (filter (is_candidate tcp) machines))
