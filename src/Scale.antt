-- ===== src/Scale.antt =====
-- controllers/scale.go and controllers/controlplane.go: which machine a scale-down removes.
mod Laws
mod Tests
pub mod Down
pub mod Up
use cluster_api_control_plan.Base.{
  ℕ, Bool, true, false, ◌&&◌, not, Option, none, some, List, [], ◌∷◌, String, any, filter, head?,
  length, leb, if◌then◌else◌, str_eq, deref, has_key, Error, Result, ok, err, say, Cmp, then_by,
  compare, compare_string, sort_by, map,
}
use cluster_api_control_plan.Objects.{Machine, Library, is_deleting}

-- A failure domain of status.failureDomains of the Cluster.
pub record FailureDomain : Type 0 where
  pub name : String
  pub control_plane : Option Bool

-- Oldest: by creation, then by name.
unfoldable pub by_creation : Cmp Machine
by_creation a b = then_by (compare a.created b.created) (compare_string a.name b.name)

abbrev pub in_failure_domains : List String → Machine → Bool
in_failure_domains names m = any (str_eq m.failure_domain) names

-- FailureDomains: those marked for the control plane, or all where none is.
unfoldable pub failure_domains : List FailureDomain → List FailureDomain
failure_domains domains =
    let marked = filter (λ d. deref d.control_plane false) domains in
    if leb 1 (length marked) then marked else domains

unfoldable pub failure_domain_names : List FailureDomain → List String
failure_domain_names domains = sort_by compare_string (map (λ (d : FailureDomain). d.name) domains)

unfoldable pub oldest : List Machine → Option Machine
unfolding by_creation
oldest machines = head? (sort_by by_creation machines)

module _ (lib : Library) where
  unfoldable pub machine_with_delete_annotation : List Machine → List Machine
  machine_with_delete_annotation machines =
      filter (λ m. has_key lib.delete_machine m.annotations) machines

  unfoldable pub flagged : List Machine → List Machine
  flagged machines = filter lib.is_unhealthy_and_owner_remediated machines

  unfoldable pub unhealthy_machines : List Machine → List Machine
  unhealthy_machines machines =
      filter (λ m. lib.is_unhealthy_and_owner_remediated m && not (is_deleting m)) machines

  -- The `switch` of selectMachineForScaleDown.
  unfoldable pub eligible : List Machine → List Machine → List Machine
  unfolding machine_with_delete_annotation flagged unhealthy_machines
  eligible machines outdated =
      if leb 1 (length (machine_with_delete_annotation outdated))
      then machine_with_delete_annotation outdated
      else if leb 1 (length (machine_with_delete_annotation machines))
      then machine_with_delete_annotation machines
      else if leb 1 (length (flagged outdated))
      then flagged outdated
      else if leb 1 (length (unhealthy_machines machines))
      then unhealthy_machines machines
      else if leb 1 (length outdated)
      then outdated
      else machines

-- `pick_most` is failuredomains.PickMost of Cluster API, for the failure domains, all machines and
-- the eligible ones.
module _ (pick_most : List FailureDomain → List Machine → List Machine → String) where
  -- The oldest machine outside of the domains decides, if there is one.
  unfoldable pub domain_of :
      List FailureDomain → List Machine → List Machine → Option Machine → String
  domain_of domains machines candidates none = pick_most domains machines candidates
  domain_of domains machines candidates (some m) = m.failure_domain

  unfoldable pub failure_domain_with_most_machines :
      List FailureDomain → List Machine → List Machine → String
  unfolding failure_domains failure_domain_names domain_of
  failure_domain_with_most_machines all_domains machines candidates =
      let domains = failure_domains all_domains in
      domain_of domains machines candidates (
        oldest (filter (λ m. not (in_failure_domains (failure_domain_names domains) m)) candidates))

  abbrev pub chosen : Option Machine → Result Machine
  chosen none = err (say "failed to pick a control plane machine to delete")
  chosen (some m) = ok m

  unfoldable pub machine_in_failure_domain_with_most_machines :
      List FailureDomain → List Machine → List Machine → Result Machine
  machine_in_failure_domain_with_most_machines all_domains machines candidates =
      let domain = failure_domain_with_most_machines all_domains machines candidates in
      chosen (oldest (filter (in_failure_domains (domain ∷ [])) candidates))

  unfoldable pub select_machine_for_scale_down :
      Library → List FailureDomain → List Machine → List Machine → Result Machine
  select_machine_for_scale_down lib all_domains machines outdated =
      machine_in_failure_domain_with_most_machines all_domains machines
        (eligible lib machines outdated)
