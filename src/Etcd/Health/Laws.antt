-- ===== src/Etcd/Health/Laws.antt =====
-- When the health check reports that etcd lost quorum.
use cluster_api_control_plan.Base.{
  ℕ, ◌+◌, ◌-◌, ◌≤◌, ◌<◌, ◌≡◌, ◌≢◌, ◌↔◌, true, none, List, [], ◌∷◌, String, arith, refl, All, eq_iff,
  Option-cases, inl, inr,
}
use cluster_api_control_plan.Talos.{Service}
use cluster_api_control_plan.Etcd.Health.{
  EtcdHealth, quorum, has_quorum, may_have_quorum, unhealthy, quorum_lost, condition_reason,
  first_error, etcd_service_error, last_state, service_error,
}

-- A state of etcd that fits what was observed: of the machines that could not be inspected some
-- number is healthy, and so is some number of the excluded members.
pub record IsCompletion (h : EtcdHealth) (actual : ℕ) : Type 0 where
  pub uninspected : ℕ
  pub excluded : ℕ
  pub uninspected_bound : uninspected ≤ h.machines - h.inspected
  pub excluded_bound : excluded ≤ h.excluded
  pub total : actual ≡ h.healthy + uninspected + excluded

-- The reason says that quorum is lost exactly if a machine was inspected and etcd has no quorum of
-- healthy members, however many of the machines that were not inspected and of the excluded members
-- are healthy.
pub condition_reason-quorum_lost_iff :
    (h : EtcdHealth)
    → (condition_reason h ≡ quorum_lost)
      ↔ (h.inspected ≢ 0) × ((actual : ℕ) → IsCompletion h actual → actual < quorum h)
unfolding condition_reason has_quorum may_have_quorum
condition_reason-quorum_lost_iff h = (
  λ e. (ground arith, λ actual c. ground (arith, c.uninspected_bound, c.excluded_bound, c.total)),
  λ (i, f).
      let most : h.healthy + (h.machines - h.inspected) + h.excluded < quorum h = f _ (record {
        uninspected = h.machines - h.inspected;
        excluded = h.excluded;
        uninspected_bound = omega arith;
        excluded_bound = omega arith;
        total = refl;
      }) in
      ground arith,
)

-- The reason says that etcd is merely unhealthy exactly if a machine was inspected and, however the
-- others are, etcd has a quorum of healthy members.
pub condition_reason-unhealthy_iff :
    (h : EtcdHealth)
    → (condition_reason h ≡ unhealthy)
      ↔ (h.inspected ≢ 0) × ((actual : ℕ) → IsCompletion h actual → quorum h ≤ actual)
unfolding condition_reason has_quorum may_have_quorum
condition_reason-unhealthy_iff h = (
  λ e. (ground arith, λ actual c. ground (arith, c.uninspected_bound, c.excluded_bound, c.total)),
  λ (i, f).
      let least : quorum h ≤ h.healthy = f _ (record {
        uninspected = 0;
        excluded = 0;
        uninspected_bound = omega arith;
        excluded_bound = omega arith;
        total = omega arith;
      }) in
      ground arith,
)

-- The service runs: it has an event, the last of which has the state Running, and it is healthy.
abbrev pub IsRunning : Service → Type 0
IsRunning s = (s.events ≢ []) × (last_state "" s.events ≡ "Running") × (s.healthy ≡ true)

service_error_iff : (name : String) (s : Service) → (service_error name s ≡ none) ↔ IsRunning s
service_error_iff name s = ground (arith, eq_iff (last_state "" s.events) "Running")

first_error_iff :
    (services : List Service) (name : String)
    → (first_error name services ≡ none) ↔ All IsRunning services
unfolding first_error
first_error_iff [] name = (λ _. tt, λ _. refl)
first_error_iff (s ∷ ss) name = elim (Option-cases (service_error name s)) [
  | inl e ↦ (
    λ h. ((service_error_iff name s).0 e, (first_error_iff ss name).0 (ground arith)),
    λ (r, rs). let h = (first_error_iff ss name).1 rs in ground arith,
  )
  | inr (w, e) ↦ (
    λ h. absurd (ground arith),
    λ (r, rs). let e' = (service_error_iff name s).1 r in absurd (ground arith),
  )
]

-- The service of a machine has no error exactly if the answer lists it, and every entry of it runs.
pub etcd_service_error_iff :
    (services : List Service) (name : String)
    → (etcd_service_error services name ≡ none) ↔ (services ≢ []) × All IsRunning services
unfolding etcd_service_error
etcd_service_error_iff [] name = (λ h. absurd (ground arith), λ (n, _). absurd (n refl))
etcd_service_error_iff (s ∷ ss) name =
    let (f, g) = first_error_iff (s ∷ ss) name in
    (λ h. (λ e. absurd (ground arith), f h), λ (_, r). g r)
