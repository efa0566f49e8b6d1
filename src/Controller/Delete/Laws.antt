-- ===== src/Controller/Delete/Laws.antt =====
-- A control plane is torn down hook by hook, and keeps its finalizer as long as it has machines.
use cluster_api_control_plan.Base.{
  some≢none, ok_inj, ◌≡◌, ◌⊎◌, inl, inr, Option, none, some, List, [], ◌∷◌, In, sym, refl, Error,
  Result, ok, err,
}
use cluster_api_control_plan.Objects.{Machine, ControlPlaneObject}
use cluster_api_control_plan.Remediation.Api.{Answer}
use cluster_api_control_plan.PreTerminate.Hook.{Env}
use cluster_api_control_plan.Controller.Delete.{
  Effect, deletes, updates, Outcome, tear_down, after_tear_down, reconcile_delete,
}
use cluster_api_control_plan.Controller.Delete.Teardown.{
  IsReleased, IsTorn, tear_down-In, tear_down-all, tear_down-updates,
}

module _ (env : Env) (delete : Machine → Answer) (update : Option Error) where
  -- How a teardown goes, given the machines that were listed.
  pub record IsTeardown (tcp : ControlPlaneObject) (listed : Result (List Machine)) (o : Outcome)
      : Type 0 where
    -- the finalizers stay while there are machines, or it is not known whether there are
    pub guarded : (o.tcp.finalizers ≡ tcp.finalizers) ⊎ (listed ≡ ok [])
    pub updated : (t : ControlPlaneObject) → In (updates t) o.effects → listed ≡ ok []
    -- a machine is deleted only without its hook
    pub safe : (m : Machine) → In (deletes m) o.effects → IsReleased env delete update m
    -- without an error, every machine is on its way out
    pub complete :
        o.error ≡ none
        → (ms : List Machine) → listed ≡ ok ms
        → (m : Machine) → In m ms
        → IsTorn env delete update m o.effects

  after_tear_down-IsTeardown :
      (tcp : ControlPlaneObject) (ms : List Machine) (r : List Effect × Option Error)
      → ((t : ControlPlaneObject) → ¬ (In (updates t) r.0))
      → ((x : Machine) → In (deletes x) r.0 → IsReleased env delete update x)
      → ((x : Machine) → r.1 ≡ none → In x ms → IsTorn env delete update x r.0)
      → IsTeardown tcp (ok ms) (after_tear_down env delete update tcp r)
  after_tear_down-IsTeardown tcp ms (effects, some e) u s c = record {
    guarded = inl refl;
    updated = λ t n. absurd (u t n);
    safe = s;
    complete = λ h ms' p x n. absurd (some≢none h);
  }
  after_tear_down-IsTeardown tcp ms (effects, none) u s c = record {
    guarded = inl refl;
    updated = λ t n. absurd (u t n);
    safe = s;
    complete = λ h ms' p x n. c x refl (rw (sym (ok_inj p)) at n);
  }

  -- The finalizers go, and the update that drops them is asked for, only if no machine was listed. A
  -- machine is asked to be deleted only after its hook was released, and only if it is not being
  -- deleted. Without an error, every listed machine is being deleted or was asked to be.
  pub reconcile_delete-IsTeardown :
      (tcp : ControlPlaneObject) (listed : Result (List Machine))
      → IsTeardown tcp listed (reconcile_delete env delete update tcp listed)
  unfolding reconcile_delete
  reconcile_delete-IsTeardown tcp (err e) = record {
    guarded = inl refl;
    updated = λ t n. absurd n;
    safe = λ m n. absurd n;
    complete = λ h. absurd (some≢none h);
  }
  reconcile_delete-IsTeardown tcp (ok []) = record {
    guarded = inr refl;
    updated = λ t n. refl;
    safe = λ m n. elim n [ inl p ↦ cc | inr k ↦ absurd k ];
    complete = λ h ms p m n. absurd (none_in ms p m n);
  }
    where
      none_in : (ms : List Machine) → ok [] ≡ ok ms → (m : Machine) → ¬ (In m ms)
      none_in [] p m n = n
      none_in (x ∷ xs) p m n = cc
  reconcile_delete-IsTeardown tcp (ok (m ∷ ms)) =
      after_tear_down-IsTeardown tcp (m ∷ ms) (tear_down env delete update (m ∷ ms))
        (λ t. tear_down-updates env delete update t (m ∷ ms))
        (λ x. tear_down-In env delete update x (m ∷ ms))
        (λ x. tear_down-all env delete update x (m ∷ ms))
