-- ===== src/Etcd/Check/Laws.antt =====
-- What the etcd health check observed when it reports no error.
use cluster_api_control_plan.Base.{
  ℕ, suc, ◌+◌, ◌-◌, ◌≤◌, ◌≡◌, inl, inr, ◌&&◌, Option, none, some, List, [], ◌∷◌, length, arith,
  refl, sym, subst, Bool-cases, Option-cases, leb, Error, Result, ok, err,
}
use cluster_api_control_plan.Objects.{Machine}
use cluster_api_control_plan.Talos.{MemberMessage, Dial}
use cluster_api_control_plan.Etcd.Names.{etcd_member_names}
use cluster_api_control_plan.Etcd.Membership.{EtcdMembership, new_etcd_membership}
use cluster_api_control_plan.Etcd.Health.{
  EtcdHealth, health_checkable, Probe, not_inspected, not_running, running, probe_etcd,
}
use cluster_api_control_plan.Etcd.Check.{
  Progress, go_on, count_message, check_message, check_messages, evaluate, keep_first, evaluate_all,
  excluded_machines, start, evaluate_machines, etcd_healthcheck,
}

health_checkable-le : (ms : List Machine) → length (health_checkable ms) ≤ length ms
unfolding health_checkable
health_checkable-le [] = omega arith
health_checkable-le (m ∷ ms) = ground (arith, health_checkable-le ms)

module _ (membership : EtcdMembership) (excluded : List (List ℕ)) where
  -- The messages of a machine do not raise the number of healthy members.
  record IsKept (old new : EtcdHealth) : Type 0 where
    healthy : new.healthy ≤ old.healthy
    inspected : new.inspected ≡ old.inspected
    machines : new.machines ≡ old.machines

  IsKept-refl : (h : EtcdHealth) → IsKept h h
  IsKept-refl h = record { healthy = omega arith; inspected = refl; machines = refl }

  count_message-IsKept :
      (m : Machine) (msg : MemberMessage) (h : EtcdHealth)
      → IsKept h (count_message excluded m msg h)
  unfolding count_message
  count_message-IsKept m msg h = record {
    healthy = ground arith;
    inspected = refl;
    machines = refl;
  }

  IsKept-trans : (a b c : EtcdHealth) → IsKept a b → IsKept b c → IsKept a c
  IsKept-trans a b c p q = record {
    healthy = omega (arith, p.healthy, q.healthy);
    inspected = ground (arith, p.inspected, q.inspected);
    machines = ground (arith, p.machines, q.machines);
  }

  go_on-IsKept :
      (h : EtcdHealth) (counted : Progress) (rest : List (List ℕ) → Progress × Option Error)
      → IsKept h counted.health
      → ((names : List (List ℕ)) → IsKept counted.health (rest names).0.health)
      → (r : Result (List (List ℕ))) → IsKept h (go_on counted rest r).0.health
  go_on-IsKept h counted rest k f (err e) = k
  go_on-IsKept h counted rest k f (ok names) =
      IsKept-trans h counted.health (rest names).0.health k (f names)

  check_messages-IsKept :
      (m : Machine) (s : Progress) (msgs : List MemberMessage)
      → IsKept s.health (check_messages membership excluded m s msgs).0.health
  unfolding check_messages
  check_messages-IsKept m s [] = IsKept-refl s.health
  check_messages-IsKept m s (msg ∷ msgs) =
      let rest : (s' : Progress)
          → IsKept s'.health (check_messages membership excluded m s' msgs).0.health =
        λ s'. check_messages-IsKept m s' msgs in
      go_on-IsKept s.health (record s { health = count_message excluded m msg s.health }) _
        (count_message-IsKept m msg s.health) (λ names. rest _)
        (check_message membership excluded s.previous msg)

  -- A machine adds at most one to the healthy members and to the inspected machines.
  record IsStep (old new : EtcdHealth) : Type 0 where
    healthy : new.healthy ≤ old.healthy + (new.inspected - old.inspected)
    inspected : new.inspected ≤ suc old.inspected
    monotone : old.inspected ≤ new.inspected
    machines : new.machines ≡ old.machines

  evaluate-IsStep :
      (m : Machine) (p : Probe) (s : Progress)
      → IsStep s.health (evaluate membership excluded m p s).0.health
  unfolding evaluate
  evaluate-IsStep m (not_inspected e) s = record {
    healthy = omega arith;
    inspected = omega arith;
    monotone = omega arith;
    machines = refl;
  }
  evaluate-IsStep m (not_running e) s = record {
    healthy = omega arith;
    inspected = omega arith;
    monotone = omega arith;
    machines = refl;
  }
  evaluate-IsStep m (running (err e)) s = record {
    healthy = omega arith;
    inspected = omega arith;
    monotone = omega arith;
    machines = refl;
  }
  evaluate-IsStep m (running (ok msgs)) s =
      let k = check_messages-IsKept m _ msgs in
      record {
        healthy = omega (arith, k.healthy, k.inspected);
        inspected = omega (arith, k.inspected);
        monotone = omega (arith, k.inspected);
        machines = k.machines;
      }

  keep_first-health :
      (m : Machine) (r : Progress × Option Error)
      → (keep_first membership excluded m r).health ≡ r.0.health
  keep_first-health m (s, none) = refl
  keep_first-health m (s, some e) = elim (Option-cases s.first_error) [
    | inl h ↦ ground arith
    | inr (x, h) ↦ ground arith
  ]

  -- The counts that the loop keeps, `done` machines having been evaluated.
  record IsBounded (h : EtcdHealth) (done machines : ℕ) : Type 0 where
    healthy : h.healthy ≤ h.inspected
    inspected : h.inspected ≤ done
    machines_kept : h.machines ≡ machines

  evaluate_all-IsBounded :
      (probe : Machine → Probe) (ms : List Machine) (s : Progress) (done machines : ℕ)
      → IsBounded s.health done machines
      → IsBounded (evaluate_all membership excluded probe ms s).health (done + length ms) machines
  unfolding evaluate_all
  evaluate_all-IsBounded probe [] s done machines b =
      subst (λ n. IsBounded s.health n machines) (omega arith) b
  evaluate_all-IsBounded probe (m ∷ ms) s done machines b =
      let e = evaluate membership excluded m (probe m) s in
      let step = evaluate-IsStep m (probe m) s in
      let next : IsBounded (keep_first membership excluded m e).health (suc done) machines =
        subst (λ h. IsBounded h (suc done) machines) (sym (keep_first-health m e))
          (record {
            healthy = omega (arith, step.healthy, step.monotone, b.healthy);
            inspected = omega (arith, step.inspected, b.inspected);
            machines_kept = ground (arith, step.machines, b.machines_kept);
          }) in
      subst (λ n. IsBounded (evaluate_all membership excluded probe (m ∷ ms) s).health n machines)
        (omega arith)
        (evaluate_all-IsBounded probe ms (keep_first membership excluded m e) (suc done) machines
          next)

-- Never more healthy members than inspected machines, nor more of those than machines.
pub etcd_healthcheck-IsBounded :
    (dial : Dial) (owned : List Machine)
    → let h = (etcd_healthcheck dial owned).0 in
      (h.healthy ≤ h.inspected) × (h.inspected ≤ h.machines) × (h.machines ≤ length owned)
unfolding etcd_healthcheck evaluate_machines
etcd_healthcheck-IsBounded dial owned =
    let machines = health_checkable owned in
    let b =
      evaluate_all-IsBounded (new_etcd_membership owned machines)
        (etcd_member_names (excluded_machines owned machines)) (probe_etcd dial) machines
        (start (length machines)) 0 (length machines)
        (record { healthy = omega arith; inspected = omega arith; machines_kept = refl }) in
    elim (Bool-cases (leb 1 (length owned) && leb (length machines) 0)) [
      | inl t ↦ ground arith
      | inr f ↦ ground (arith, b.healthy, b.inspected, b.machines_kept, health_checkable-le owned)
    ]
