-- ===== src/Etcd/Check/Passed.antt =====
-- What the etcd health check saw when it reports no error.
use cluster_api_control_plan.Base.{
  ℕ, ◌≤◌, ◌≡◌, inl, inr, ◌&&◌, Option, none, some, List, [], ◌∷◌, String, length, All, All-map,
  arith, refl, sym, ◌∙◌, Bool-cases, Option-cases, leb, Error, Result, ok, err, Result-cases,
}
use cluster_api_control_plan.Objects.{Machine}
use cluster_api_control_plan.Talos.{MemberMessage, Dial}
use cluster_api_control_plan.Etcd.Names.{etcd_member_names}
use cluster_api_control_plan.Etcd.Membership.{EtcdMembership, new_etcd_membership, verify}
use cluster_api_control_plan.Etcd.Membership.Laws.{IsVerified, verify-IsVerified}
use cluster_api_control_plan.Etcd.Health.{
  health_checkable, Probe, not_inspected, not_running, running, probe_etcd,
}
use cluster_api_control_plan.Etcd.Check.{
  Progress, go_on, count_message, check_message, check_messages, evaluate, keep_first, evaluate_all,
  excluded_machines, start, evaluate_machines, etcd_healthcheck,
}

module _ (membership : EtcdMembership) (excluded : List (List ℕ)) where
  -- Every message of the list is verified.
  abbrev AreVerified : List MemberMessage → Type 0
  AreVerified =
      All (λ msg. (names : List (List ℕ)) × (verify membership msg.hostname msg.members ≡ ok names))

  -- The error of the whole check is left alone, and none of the messages failed if there is no error.
  abbrev Told : Progress → List MemberMessage → Progress × Option Error → Type 0
  Told s msgs (s', e) = (s'.first_error ≡ s.first_error) × (e ≡ none → AreVerified msgs)

  check_message-verified :
      (previous : Option (String × List (List ℕ))) (msg : MemberMessage) (names : List (List ℕ))
      → check_message membership excluded previous msg ≡ ok names
      → verify membership msg.hostname msg.members ≡ ok names
  unfolding check_message
  check_message-verified previous msg names h =
      elim (Result-cases (verify membership msg.hostname msg.members)) [
        | inl (e, p) ↦ absurd (ground arith)
        | inr (ns, p) ↦ ground arith
      ]

  check_messages-Told :
      (m : Machine) (s : Progress) (msgs : List MemberMessage)
      → Told s msgs (check_messages membership excluded m s msgs)
  unfolding check_messages
  check_messages-Told m s [] = (refl, λ _. tt)
  check_messages-Told m s (msg ∷ msgs) =
      from (check_message membership excluded s.previous msg) refl
        (λ s'. check_messages-Told m s' msgs)
    where
      from :
          (r : Result (List (List ℕ)))
          → check_message membership excluded s.previous msg ≡ r
          → ((s' : Progress) → Told s' msgs (check_messages membership excluded m s' msgs))
          → Told s (msg ∷ msgs) (
              go_on
                (record s { health = count_message excluded m msg s.health })
                (λ names.
                  check_messages membership excluded m
                    (record s {
                      health = count_message excluded m msg s.health;
                      previous = some (msg.hostname, names);
                    })
                    msgs)
                r)
      from (err e) h rest = (refl, λ x. cc)
      from (ok names) h rest =
          let (kept, all) = rest _ in
          (kept, λ x. ((names, check_message-verified s.previous msg names h), all x))

  -- The machine runs etcd, and every member list that it answers with is verified.
  pub IsSeen : Probe → Type 0
  IsSeen p = (msgs : List MemberMessage) × (p ≡ running (ok msgs)) × AreVerified msgs

  evaluate-Told :
      (m : Machine) (p : Probe) (s : Progress)
      → ((evaluate membership excluded m p s).0.first_error ≡ s.first_error)
        × ((evaluate membership excluded m p s).1 ≡ none → IsSeen p)
  unfolding evaluate IsSeen
  evaluate-Told m (not_inspected e) s = (refl, λ h. cc)
  evaluate-Told m (not_running e) s = (refl, λ h. cc)
  evaluate-Told m (running (err e)) s = (refl, λ h. cc)
  evaluate-Told m (running (ok msgs)) s =
      let (kept, all) = check_messages-Told m _ msgs in (kept, λ h. (msgs, refl, all h))

  keep_first-none :
      (m : Machine) (r : Progress × Option Error)
      → (keep_first membership excluded m r).first_error ≡ none
      → (r.0.first_error ≡ none) × (r.1 ≡ none)
  keep_first-none m (s, none) h = (h, refl)
  keep_first-none m (s, some e) h = elim (Option-cases s.first_error) [
    | inl k ↦ absurd (ground arith)
    | inr (x, k) ↦ absurd (ground arith)
  ]

  evaluate_all-IsSeen :
      (probe : Machine → Probe) (ms : List Machine) (s : Progress)
      → (evaluate_all membership excluded probe ms s).first_error ≡ none
      → (s.first_error ≡ none) × All (λ m. IsSeen (probe m)) ms
  unfolding evaluate_all
  evaluate_all-IsSeen probe [] s h = (h, tt)
  evaluate_all-IsSeen probe (m ∷ ms) s h =
      let e = evaluate membership excluded m (probe m) s in
      let (kept, rest) = evaluate_all-IsSeen probe ms (keep_first membership excluded m e) h in
      let (before, fine) = keep_first-none m e kept in
      let (same, seen) = evaluate-Told m (probe m) s in (sym same ∙ before, (seen fine, rest))

-- The machine's etcd runs, and each member list that it answered with is verified against the owned
-- machines and the machines of the check.
pub record IsHealthy (dial : Dial) (owned machines : List Machine) (m : Machine) : Type 0 where
  pub messages : List MemberMessage
  pub answered : probe_etcd dial m ≡ running (ok messages)
  pub verified : All (λ (msg : MemberMessage). IsVerified owned machines msg.members) messages

-- The check reports no error for a control plane that has machines only if some machine is neither
-- being deleted nor leaving etcd, and the etcd service of each of those runs and is healthy, its
-- member list could be read, and each list has a member for every one of them that has a host name,
-- and as many other members as there are ones without.
pub etcd_healthcheck-IsHealthy :
    (dial : Dial) (owned : List Machine)
    → 1 ≤ length owned
    → (etcd_healthcheck dial owned).1 ≡ none
    → (1 ≤ length (health_checkable owned))
      × All (IsHealthy dial owned (health_checkable owned)) (health_checkable owned)
unfolding etcd_healthcheck evaluate_machines IsSeen
etcd_healthcheck-IsHealthy dial owned some_owned h =
    let machines = health_checkable owned in
    elim (Bool-cases (leb 1 (length owned) && leb (length machines) 0)) [
      | inl t ↦ absurd (ground arith)
      | inr f ↦
          let (_, all) =
            evaluate_all-IsSeen (new_etcd_membership owned machines)
              (etcd_member_names (excluded_machines owned machines)) (probe_etcd dial) machines
              (start (length machines)) (ground arith) in
          (
            ground arith,
            All-map _ _ machines
                (λ m s. record {
                  messages = s.0;
                  answered = s.1;
                  verified =
                      All-map _ _ s.0
                        (λ msg v. verify-IsVerified owned machines msg.hostname msg.members v.0 v.1)
                        s.2;
                })
                all,
          )
    ]
