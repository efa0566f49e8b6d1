-- ===== src/Controller/Delete/Teardown.antt =====
-- What the loop over the machines of a control plane that goes away asks for.
use cluster_api_control_plan.Base.{
  some≢none, ◌≡◌, ◌⊎◌, inl, inr, true, false, not, Option, none, List, [], ◌∷◌, String, In,
  In-append, append-In, sym, has_key, arith, refl, Bool-cases, Option-cases, Error, ◌∙◌,
  lookup-erase, erase, lookup-erase_self, ap, is_some, ◌&&◌,
}
use cluster_api_control_plan.Objects.{Machine, ControlPlaneObject, is_deleting}
use cluster_api_control_plan.Remediation.Api.{Answer, error_unless_gone}
use cluster_api_control_plan.PreTerminate.Hook
use cluster_api_control_plan.PreTerminate.Hook.{
  Env, Step, pre_terminate_hook, observed_at_annotation, patch_with, is_hooked, without_hook,
  release_pre_terminate_hook,
}
use cluster_api_control_plan.Controller.Delete.{
  Effect, deletes, updates, releasing, delete_one, tear_down_one, tear_down,
}

module _ (env : Env) (delete : Machine → Answer) (update : Option Error) where
  without_hook-unhooked : (m : Machine) → is_hooked (without_hook m) ≡ false
  without_hook-unhooked m = ap is_some (
      lookup-erase observed_at_annotation pre_terminate_hook
        (erase pre_terminate_hook m.annotations)
      ∙ lookup-erase_self pre_terminate_hook m.annotations)

  patched :
      (text : String) (m : Machine)
      → (patch_with env text without_hook m).error ≡ none
      → (is_hooked (patch_with env text without_hook m).machine ≡ false)
        × (is_deleting (patch_with env text without_hook m).machine ≡ is_deleting m)
  unfolding patch_with
  patched text m h = elim (Option-cases (env.helper m)) [
    | inl e ↦ (rw (e, patch_with) (without_hook-unhooked m), rw (e, patch_with) refl)
    | inr (x, e) ↦ absurd (some≢none (rw (e, patch_with) at h))
  ]

  released :
      (m : Machine)
      → (release_pre_terminate_hook env m).error ≡ none
      → (is_hooked (release_pre_terminate_hook env m).machine ≡ false)
        × (is_deleting (release_pre_terminate_hook env m).machine ≡ is_deleting m)
  unfolding release_pre_terminate_hook
  released m h =
      elim (Bool-cases (not (is_hooked m) && not (has_key observed_at_annotation m.annotations))) [
        | inl t ↦ rw (t, release_pre_terminate_hook) (ground arith, refl)
        | inr f ↦
            rw (f, release_pre_terminate_hook)
              (patched _ m (rw (f, release_pre_terminate_hook) at h))
      ]

  In-releasing : (m : Machine) (es : List Hook.Effect) → ¬ (In (deletes m) (releasing es))
  In-releasing m [] n = absurd n
  In-releasing m (e ∷ es) (inl p) = cc
  In-releasing m (e ∷ es) (inr n) = In-releasing m es n

  -- A machine whose deletion is asked for.
  abbrev pub IsReleased : Machine → Type 0
  IsReleased m = (is_hooked m ≡ false) × (is_deleting m ≡ false)

  delete_one-In :
      (x m : Machine) (rest : List Effect × Option Error)
      → In (deletes x) (delete_one env delete update m rest).0
      → ((x ≡ m) × (is_deleting m ≡ false)) ⊎ In (deletes x) rest.0
  delete_one-In x m rest n = elim (Bool-cases (is_deleting m)) [
    | inl t ↦ inr (rw t at n)
    | inr f ↦ elim (Option-cases (error_unless_gone (delete m))) [
      | inl e ↦ elim (rw (f, e) at n) [ inl p ↦ inl (same p, f) | inr k ↦ inr k ]
      | inr (y, e) ↦ elim (rw (f, e) at n) [ inl p ↦ inl (same p, f) | inr k ↦ absurd k ]
    ]
  ]
    where
      same : {a b : Machine} → deletes a ≡ deletes b → a ≡ b
      same p = cc

  tear_down_one-In :
      (x : Machine) (s : Step) (rest : List Effect × Option Error)
      → (s.error ≡ none → is_hooked s.machine ≡ false)
      → In (deletes x) (tear_down_one env delete update s rest).0
      → IsReleased x ⊎ In (deletes x) rest.0
  tear_down_one-In x s rest h n = elim (Option-cases s.error) [
    | inr (y, e) ↦ absurd (In-releasing x s.effects (rw e at n))
    | inl e ↦ elim (In-append (deletes x) (releasing s.effects) _ (rw e at n)) [
      | inl k ↦ absurd (In-releasing x s.effects k)
      | inr k ↦ elim (delete_one-In x s.machine rest k) [
        | inl (p, alive) ↦ inl (rw p (h e, alive))
        | inr k' ↦ inr k'
      ]
    ]
  ]

  pub tear_down-In :
      (x : Machine) (ms : List Machine)
      → In (deletes x) (tear_down env delete update ms).0
      → IsReleased x
  unfolding tear_down
  tear_down-In x [] n = absurd n
  tear_down-In x (m ∷ ms) n =
      elim (tear_down_one-In x (release_pre_terminate_hook env m) (tear_down env delete update ms)
        (λ e. (released m e).0) n) [ inl r ↦ r | inr k ↦ tear_down-In x ms k ]

  -- The machine, with its hook released, was asked to be deleted, if it was not being deleted.
  abbrev pub IsTorn : Machine → List Effect → Type 0
  IsTorn m effects =
      (is_deleting m ≡ true) ⊎ In (deletes (release_pre_terminate_hook env m).machine) effects

  delete_one-all :
      (m : Machine) (rest : List Effect × Option Error)
      → (delete_one env delete update m rest).1 ≡ none
      → (rest.1 ≡ none)
        × ((is_deleting m ≡ true) ⊎ In (deletes m) (delete_one env delete update m rest).0)
  delete_one-all m rest h = elim (Bool-cases (is_deleting m)) [
    | inl t ↦ (rw t at h, inl t)
    | inr f ↦ elim (Option-cases (error_unless_gone (delete m))) [
      | inl e ↦ (rw (f, e) at h, inr (rw (f, e) (inl refl)))
      | inr (y, e) ↦ absurd (some≢none (rw (f, e) at h))
    ]
  ]

  delete_one-rest :
      (e : Effect) (m : Machine) (rest : List Effect × Option Error)
      → (delete_one env delete update m rest).1 ≡ none
      → In e rest.0
      → In e (delete_one env delete update m rest).0
  delete_one-rest e m rest h n = elim (Bool-cases (is_deleting m)) [
    | inl t ↦ rw t n
    | inr f ↦ elim (Option-cases (error_unless_gone (delete m))) [
      | inl q ↦ rw (f, q) (inr n)
      | inr (y, q) ↦ absurd (some≢none (rw (f, q) at h))
    ]
  ]

  -- What a turn of the loop without an error does to its machine, and that it keeps the rest.
  pub record IsTurn (s : Step) (m : Machine) (rest : List Effect × Option Error) : Type 0 where
    pub fine : s.error ≡ none
    pub rest_fine : rest.1 ≡ none
    pub torn :
        (is_deleting s.machine ≡ true)
        ⊎ In (deletes s.machine) (tear_down_one env delete update s rest).0
    pub keeps : (e : Effect) → In e rest.0 → In e (tear_down_one env delete update s rest).0

  tear_down_one-IsTurn :
      (s : Step) (m : Machine) (rest : List Effect × Option Error)
      → (tear_down_one env delete update s rest).1 ≡ none
      → IsTurn s m rest
  tear_down_one-IsTurn s m rest h = elim (Option-cases s.error) [
    | inr (y, e) ↦ absurd (some≢none (rw e at h))
    | inl e ↦
        let h' : (delete_one env delete update s.machine rest).1 ≡ none = rw e at h in
        let (r, d) = delete_one-all s.machine rest h' in
        record {
          fine = e;
          rest_fine = r;
          torn = elim d [
            | inl t ↦ inl t
            | inr n ↦ inr (rw e (append-In _ (releasing s.effects) _ (inr n)))
          ];
          keeps = λ x n.
              rw e
                (append-In x (releasing s.effects) _ (inr (delete_one-rest x s.machine rest h' n)));
        }
  ]

  pub tear_down-all :
      (x : Machine) (ms : List Machine)
      → (tear_down env delete update ms).1 ≡ none
      → In x ms
      → IsTorn x (tear_down env delete update ms).0
  unfolding tear_down
  tear_down-all x [] h n = absurd n
  tear_down-all x (m ∷ ms) h n =
      let t =
        tear_down_one-IsTurn (release_pre_terminate_hook env m) m (tear_down env delete update ms)
          h in
      elim n [
        | inl p ↦ rw p (elim t.torn [ inl d ↦ inl (sym (released m t.fine).1 ∙ d) | inr k ↦ inr k ])
        | inr k ↦ elim (tear_down-all x ms t.rest_fine k) [
          | inl d ↦ inl d
          | inr j ↦ inr (t.keeps _ j)
        ]
      ]

  In-releasing-updates :
      (t : ControlPlaneObject) (es : List Hook.Effect) → ¬ (In (updates t) (releasing es))
  In-releasing-updates t [] n = absurd n
  In-releasing-updates t (e ∷ es) (inl p) = cc
  In-releasing-updates t (e ∷ es) (inr n) = In-releasing-updates t es n

  delete_one-updates :
      (t : ControlPlaneObject) (m : Machine) (rest : List Effect × Option Error)
      → In (updates t) (delete_one env delete update m rest).0
      → In (updates t) rest.0
  delete_one-updates t m rest n = elim (Bool-cases (is_deleting m)) [
    | inl d ↦ rw d at n
    | inr f ↦ elim (Option-cases (error_unless_gone (delete m))) [
      | inl e ↦ elim (rw (f, e) at n) [ inl p ↦ cc | inr k ↦ k ]
      | inr (y, e) ↦ elim (rw (f, e) at n) [ inl p ↦ cc | inr k ↦ absurd k ]
    ]
  ]

  pub tear_down-updates :
      (t : ControlPlaneObject) (ms : List Machine)
      → ¬ (In (updates t) (tear_down env delete update ms).0)
  unfolding tear_down
  tear_down-updates t [] n = absurd n
  tear_down-updates t (m ∷ ms) n =
      one (release_pre_terminate_hook env m) (tear_down env delete update ms)
        (tear_down-updates t ms) n
    where
      one :
          (s : Step) (rest : List Effect × Option Error)
          → ¬ (In (updates t) rest.0)
          → ¬ (In (updates t) (tear_down_one env delete update s rest).0)
      one s rest h k = elim (Option-cases s.error) [
        | inr (y, e) ↦ In-releasing-updates t s.effects (rw e at k)
        | inl e ↦ elim (In-append (updates t) (releasing s.effects) _ (rw e at k)) [
          | inl j ↦ In-releasing-updates t s.effects j
          | inr j ↦ h (delete_one-updates t s.machine rest j)
        ]
      ]
