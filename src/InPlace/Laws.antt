-- ===== src/InPlace/Laws.antt =====
-- One machine at a time: what is started, and what is handed over to the rollout.
use cluster_api_control_plan.Base.{
  differ, ◌≡◌, ◌≢◌, ◌⊎◌, inl, inr, Bool, true, false, Option, none, some, List, [], ◌∷◌, find?-some,
  find?-none, filter, In, All, All-In, In-sort_by, sort_by-In, sort_by, refl, All-of_In,
  Option-cases, Result, Result-cases, ok, err, Error,
}
use cluster_api_control_plan.Objects.{Machine, ControlPlaneObject, Library}
use cluster_api_control_plan.Hooks.{is_updating_in_place}
use cluster_api_control_plan.Etcd.Health.{health_checkable}
use cluster_api_control_plan.Etcd.Check.{etcd_healthcheck}
use cluster_api_control_plan.Preflight.Nodes.{nodes_healthcheck}
use cluster_api_control_plan.Scale.{by_creation}
use cluster_api_control_plan.Rollout.{ControlPlane}
use cluster_api_control_plan.InPlace.Patch.{Plan, can_update_machine}
use cluster_api_control_plan.InPlace.Patch.Laws.{CanUpdate, can_update_machine-CanUpdate}
use cluster_api_control_plan.InPlace.Trigger.{trigger_in_place_update}
use cluster_api_control_plan.InPlace.{
  World, Outcome, decide, give_up, is_in_place_candidate, next_in_place_candidate,
  build_in_place_plan, offer_plan, offer_in_place, others_of, offer_when_healthy, offer_next, among,
  when_enabled, reconcile_in_place_updates,
}

module _ (lib : Library) (w : World) (tcp : ControlPlaneObject) (cp : ControlPlane) where
  -- The control plane is healthy enough to take the candidate's node down for a while.
  pub record IsCalm (candidate : Machine) : Type 0 where
    pub etcd : (etcd_healthcheck w.dial cp.machines).1 ≡ none
    pub components :
        nodes_healthcheck w.components w.nodes (health_checkable (others_of lib w tcp cp candidate))
        ≡ none

  -- A machine that may be offered, while no other is updated.
  pub record IsOffered (outdated : List Machine) (candidate : Machine) : Type 0 where
    pub enabled : w.enabled ≡ true
    pub idle : filter (is_updating_in_place lib) outdated ≡ []
    pub listed : In candidate outdated
    pub eligible : is_in_place_candidate lib w tcp cp candidate ≡ true
    pub calm : IsCalm candidate
    pub plan : Plan
    pub planned : build_in_place_plan lib w tcp cp candidate ≡ ok plan

  -- Why the rollout may replace a machine.
  abbrev pub MayReplace : List Machine → Machine → Type 0
  MayReplace outdated m =
      In m outdated
      × ((w.enabled ≡ false)
          ⊎ ((filter (is_updating_in_place lib) outdated ≡ [])
              × All (λ x. is_in_place_candidate lib w tcp cp x ≡ false) outdated)
          ⊎ ((o : IsOffered outdated m) × (can_update_machine w.json w.extensions o.plan cp
                ≡ ok false)))

  -- The decision that an outcome carries, and what it starts.
  pub record IsOneAtATime (outdated : List Machine) (d : Outcome) : Type 0 where
    -- nothing is rolled out beside an update in place
    pub exclusive : (d.decision.claimed ≡ []) ⊎ (d.decision.rollout ≡ [])
    -- and only what cannot be updated in place
    pub replaced : (m : Machine) → In m d.decision.rollout → MayReplace outdated m
    -- an update is started of one machine, which the extension takes whole
    pub started :
        d.effects ≢ []
        → (candidate : Machine) × (o : IsOffered outdated candidate) × CanUpdate w.json w.extensions
            o.plan cp
          × (d.effects ≡ (trigger_in_place_update lib w.client o.plan).effects)
    -- while a machine is being updated, nothing is started or rolled out
    pub waits :
        w.enabled ≡ true
        → filter (is_updating_in_place lib) outdated ≢ []
        → (d.effects ≡ []) × (d.decision.rollout ≡ [])

  quiet :
      (outdated claimed rollout : List Machine)
      → (claimed ≡ []) ⊎ (rollout ≡ [])
      → ((m : Machine) → In m rollout → MayReplace outdated m)
      → (w.enabled ≡ true → filter (is_updating_in_place lib) outdated ≢ [] → rollout ≡ [])
      → IsOneAtATime outdated (decide claimed rollout)
  quiet outdated claimed rollout e r h = record {
    exclusive = e;
    replaced = r;
    started = λ n. absurd (n refl);
    waits = λ a b. (refl, h a b);
  }

  deferred : (outdated : List Machine) → IsOneAtATime outdated (decide [] [])
  deferred outdated = quiet outdated [] [] (inl refl) (λ m n. absurd n) (λ _ _. refl)

  failed : (outdated : List Machine) (e : Error) → IsOneAtATime outdated (give_up e)
  failed outdated e = record {
    exclusive = inl refl;
    replaced = λ m n. absurd n;
    started = λ n. absurd (n refl);
    waits = λ _ _. (refl, refl);
  }

  offer_plan-IsOneAtATime :
      (outdated : List Machine) (candidate : Machine) (o : IsOffered outdated candidate)
      (r : Result Bool)
      → can_update_machine w.json w.extensions o.plan cp ≡ r
      → IsOneAtATime outdated (offer_plan lib w tcp cp candidate o.plan r)
  offer_plan-IsOneAtATime outdated candidate o (err e) h = failed outdated e
  offer_plan-IsOneAtATime outdated candidate o (ok false) h =
      quiet outdated [] (candidate ∷ []) (inl refl) declined (λ _ busy. absurd (busy o.idle))
    where
      declined : (m : Machine) → In m (candidate ∷ []) → MayReplace outdated m
      declined m (inl p) = rw p (o.listed, inr (inr (o, h)))
      declined m (inr k) = absurd k
  offer_plan-IsOneAtATime outdated candidate o (ok true) h = record {
    exclusive = inr refl;
    replaced = λ m n. absurd n;
    started =
        λ _. (candidate, o, can_update_machine-CanUpdate w.json w.extensions o.plan cp h, refl);
    waits = λ _ busy. absurd (busy o.idle);
  }

  offer_when_healthy-IsOneAtATime :
      (outdated : List Machine) (candidate : Machine)
      → w.enabled ≡ true
      → filter (is_updating_in_place lib) outdated ≡ []
      → In candidate outdated
      → is_in_place_candidate lib w tcp cp candidate ≡ true
      → IsOneAtATime outdated (offer_when_healthy lib w tcp cp candidate)
  unfolding offer_when_healthy offer_in_place
  offer_when_healthy-IsOneAtATime outdated candidate on idle n eligible =
      elim (Option-cases (etcd_healthcheck w.dial cp.machines).1) [
        | inr (x, e) ↦ rw (e, offer_when_healthy) (deferred outdated)
        | inl e ↦
            elim (Option-cases (
              nodes_healthcheck w.components w.nodes
                (health_checkable (others_of lib w tcp cp candidate)))) [
                  | inr (x, f) ↦ rw (e, f, offer_when_healthy) (deferred outdated)
                  | inl f ↦ elim (Result-cases (build_in_place_plan lib w tcp cp candidate)) [
                    | inl (x, p) ↦
                        rw (e, f, p, offer_when_healthy, offer_in_place) (failed outdated x)
                    | inr (plan, p) ↦
                        rw (e, f, p, offer_when_healthy, offer_in_place)
                          (offer_plan-IsOneAtATime outdated candidate
                            (record {
                              enabled = on;
                              idle = idle;
                              listed = n;
                              eligible = eligible;
                              calm = record { etcd = e; components = f };
                              plan = plan;
                              planned = p;
                            })
                            (can_update_machine w.json w.extensions plan cp) refl)
                  ]
                ]
      ]

  offer_next-IsOneAtATime :
      (outdated : List Machine) (c : Option Machine)
      → w.enabled ≡ true
      → filter (is_updating_in_place lib) outdated ≡ []
      → next_in_place_candidate lib w tcp cp outdated ≡ c
      → IsOneAtATime outdated (offer_next lib w tcp cp outdated c)
  unfolding next_in_place_candidate
  offer_next-IsOneAtATime outdated none on idle p =
      let none_sorted =
        find?-none (is_in_place_candidate lib w tcp cp) (sort_by by_creation outdated) p in
      quiet outdated [] outdated (inl refl)
        (λ m n. (
          n,
          inr (
              inl (
                idle,
                All-of_In _ outdated (λ x k.
                    All-In _ (sort_by by_creation outdated) x none_sorted
                      (sort_by-In by_creation x outdated k)),
              )),
        ))
        (λ _ busy. absurd (busy idle))
  offer_next-IsOneAtATime outdated (some candidate) on idle p =
      let (n, eligible) =
        find?-some (is_in_place_candidate lib w tcp cp) (sort_by by_creation outdated) p in
      offer_when_healthy-IsOneAtATime outdated candidate on idle
        (In-sort_by by_creation candidate outdated n) eligible

  among-IsOneAtATime :
      (outdated busy : List Machine)
      → w.enabled ≡ true
      → filter (is_updating_in_place lib) outdated ≡ busy
      → IsOneAtATime outdated (among lib w tcp cp outdated busy)
  among-IsOneAtATime outdated (m ∷ ms) on e =
      quiet outdated (m ∷ ms) [] (inr refl) (λ _ n. absurd n) (λ _ _. refl)
  among-IsOneAtATime outdated [] on e =
      offer_next-IsOneAtATime outdated (next_in_place_candidate lib w tcp cp outdated) on e refl

  when_enabled-IsOneAtATime :
      (outdated : List Machine) (b : Bool)
      → w.enabled ≡ b
      → IsOneAtATime outdated (when_enabled lib w tcp cp b outdated)
  when_enabled-IsOneAtATime outdated true e =
      among-IsOneAtATime outdated (filter (is_updating_in_place lib) outdated) e refl
  when_enabled-IsOneAtATime outdated false e =
      quiet outdated [] outdated (inl refl) (λ m n. (n, inl e)) (λ t _. absurd (differ t e))

  -- If in-place updates are on, then while an outdated machine is being updated in place, nothing is
  -- started and nothing is rolled out. An update is started of one outdated machine only, one that has a node and is of the present
  -- template, with etcd and the components of the other machines healthy, and whose change the
  -- extension takes whole; nothing is rolled out beside it. A machine is rolled out only if in-place
  -- updates are off, if no outdated machine could be offered, or if the extension declined it.
  pub reconcile_in_place_updates-IsOneAtATime :
      (outdated : List Machine)
      → IsOneAtATime outdated (reconcile_in_place_updates lib w tcp cp outdated)
  unfolding reconcile_in_place_updates
  reconcile_in_place_updates-IsOneAtATime outdated =
      when_enabled-IsOneAtATime outdated w.enabled refl
