-- ===== src/InPlace/Trigger/Written.antt =====
-- The hook of an update is marked pending after all other writes, and where its annotation changes.
use cluster_api_control_plan.Base.{
  wrap_error, ◌≡◌, ◌⊎◌, inl, inr, false, Option, none, some, [], ◌∷◌, String, In, In-append, refl,
  sym, has_key, Option-cases, Bool-cases, Error,
}
use cluster_api_control_plan.Objects.{Machine, Library}
use cluster_api_control_plan.Hooks.{is_marked}
use cluster_api_control_plan.Rollout.{InfraObject}
use cluster_api_control_plan.InPlace.Patch.{Plan}
use cluster_api_control_plan.InPlace.Trigger.{
  Client, Effect, stamps, marks_pending, Step, and_then, stamped, stamp, desired_infra, write_infra,
  write_config, write_machine, mark_pending, from_machine, from_config, from_infra,
  trigger_in_place_update,
}

module _ (lib : Library) (client : Client) where
  and_then-In :
      (s : Step) (k : Machine → Step) (e : Effect)
      → In e (and_then s k).effects
      → In e s.effects ⊎ ((s.error ≡ none) × In e (k s.machine).effects)
  unfolding and_then
  and_then-In s k e n = elim (Option-cases s.error) [
    | inl p ↦ elim (In-append e s.effects (k s.machine).effects (rw (p, and_then) at n)) [
      | inl a ↦ inl a
      | inr b ↦ inr (p, b)
    ]
    | inr (x, p) ↦ inl (rw (p, and_then) at n)
  ]

  wrapped-none : (text name : String) (e : Option Error) → wrap_error text name e ≡ none → e ≡ none
  wrapped-none text name none h = refl
  wrapped-none text name (some e) h = cc

  -- The API server took the desired infrastructure, if it is known.
  abbrev pub InfraAccepted : Option InfraObject → Type 0
  InfraAccepted none = Unit
  InfraAccepted (some obj) = client.apply_infra (desired_infra lib client obj) ≡ none

  infra-accepted :
      (o : Option InfraObject) (m : Machine)
      → (write_infra lib client o m).error ≡ none
      → InfraAccepted o
  unfolding write_infra
  infra-accepted none m h = tt
  infra-accepted (some obj) m h = wrapped-none _ m.name _ h

  -- Not one of the writes before the last one.
  marks-stamp : (x m : Machine) → ¬ (In (marks_pending x) (stamp lib client m).effects)
  unfolding stamp
  marks-stamp x m n = elim (Bool-cases (has_key lib.update_in_progress m.annotations)) [
    | inl t ↦ absurd (rw t at n)
    | inr f ↦ other (rw f at n)
  ]
    where
      other : In (marks_pending x) (stamps (stamped lib client m) ∷ []) → ⊥
      other (inl p) = cc
      other (inr k) = k

  marks-infra :
      (x m : Machine) (o : Option InfraObject)
      → ¬ (In (marks_pending x) (write_infra lib client o m).effects)
  unfolding write_infra
  marks-infra x m none n = n
  marks-infra x m (some obj) (inl p) = cc
  marks-infra x m (some obj) (inr k) = k

  pub write_infra-machine :
      (o : Option InfraObject) (m : Machine) → (write_infra lib client o m).machine ≡ m
  unfolding write_infra
  write_infra-machine none m = refl
  write_infra-machine (some obj) m = refl

  -- The annotation of the pending hooks is patched only where it changes.
  marks-changed :
      (x m before : Machine)
      → m ≡ before
      → In (marks_pending x) (mark_pending lib client m).effects
      → is_marked lib (lib.update_machine ∷ []) before.annotations ≡ false
  unfolding mark_pending
  marks-changed x m before e n =
      elim (Bool-cases (is_marked lib (lib.update_machine ∷ []) m.annotations)) [
        | inl t ↦ absurd (rw t at n)
        | inr f ↦ rw (sym e) f
      ]

  -- The hook is marked pending only after all writes, and if its annotation changes by that: the
  -- machine is stamped, and the API server has taken the infrastructure, the configuration and the
  -- machine as they should be.
  pub record IsWritten (plan : Plan) : Type 0 where
    pub stamp_accepted : (stamp lib client plan.machine).error ≡ none
    pub infra_accepted : InfraAccepted plan.desired_infra_machine
    pub config_accepted : client.apply_config plan.desired_talos_config ≡ none
    pub machine_accepted : client.apply_machine plan.desired_machine ≡ none
    pub unmarked :
        is_marked lib (lib.update_machine ∷ []) (stamp lib client plan.machine).machine.annotations
        ≡ false

  pub marks-IsWritten :
      (plan : Plan) (x : Machine)
      → In (marks_pending x) (trigger_in_place_update lib client plan).effects
      → IsWritten plan
  unfolding trigger_in_place_update write_config write_machine
  marks-IsWritten plan x n =
      elim (and_then-In (stamp lib client plan.machine) (from_infra lib client plan) _ n) [
        | inl k ↦ absurd (marks-stamp x plan.machine k)
        | inr (e₀, n₁) ↦
            let m = (stamp lib client plan.machine).machine in
            elim (and_then-In (write_infra lib client plan.desired_infra_machine m)
              (from_config lib client plan) _ n₁) [
                | inl k ↦ absurd (marks-infra x m plan.desired_infra_machine k)
                | inr (e₁, n₂) ↦
                    elim (and_then-In (write_config lib client plan.desired_talos_config _)
                      (from_machine lib client plan) _ n₂) [
                        | inl (inl p) ↦ cc
                        | inl (inr k) ↦ absurd k
                        | inr (e₂, n₃) ↦
                            elim (and_then-In (write_machine lib client plan.desired_machine _)
                              (mark_pending lib client) _ n₃) [
                                | inl (inl p) ↦ cc
                                | inl (inr k) ↦ absurd k
                                | inr (e₃, n₄) ↦ record {
                                  stamp_accepted = e₀;
                                  infra_accepted = infra-accepted plan.desired_infra_machine m e₁;
                                  config_accepted = wrapped-none _ _ _ e₂;
                                  machine_accepted = wrapped-none _ _ _ e₃;
                                  unmarked =
                                      marks-changed x _ m
                                        (write_infra-machine plan.desired_infra_machine m) n₄;
                                }
                              ]
                      ]
              ]
      ]
