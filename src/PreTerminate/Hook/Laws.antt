-- ===== src/PreTerminate/Hook/Laws.antt =====
-- What the stamping of the hook does to the machines.
use cluster_api_control_plan.Base.{
  if◌then◌else◌, true, false, ◌≡◌, ◌⊎◌, inl, inr, none, some, List, [], ◌∷◌, String, lookup,
  lookup-insert, eq_iff, arith, refl, Error, Bool-cases, Option-cases, is_some,
}
use cluster_api_control_plan.Objects.{Machine, is_deleting, plain}
use cluster_api_control_plan.PreTerminate.Hook.{
  Env, patch_with, is_hooked, stamp_hook, stamp_pre_terminate_hooks, set_annotation,
  pre_terminate_hook,
}

-- What a pass makes of one machine: a machine that is being deleted is left alone, another one keeps
-- its other annotations, and has the hook if its patch helper could be made.
pub record IsStamped (env : Env) (old new : Machine) : Type 0 where
  pub alone : is_deleting old ≡ true → new ≡ old
  pub hooked : is_deleting old ≡ false → env.helper old ≡ none → is_hooked new ≡ true
  pub kept : is_hooked old ≡ true → new ≡ old
  pub deletion : is_deleting new ≡ is_deleting old
  pub others :
      (key : String)
      → (key ≡ pre_terminate_hook → ⊥)
      → lookup key new.annotations ≡ lookup key old.annotations

hook-set : (m : Machine) → is_hooked (set_annotation pre_terminate_hook (plain "") m) ≡ true
hook-set m = ground (
  arith,
  lookup-insert pre_terminate_hook pre_terminate_hook (plain "") m.annotations,
  eq_iff pre_terminate_hook pre_terminate_hook,
)

other-kept :
    (m : Machine) (key : String)
    → (key ≡ pre_terminate_hook → ⊥)
    → lookup key (set_annotation pre_terminate_hook (plain "") m).annotations
      ≡ lookup key m.annotations
other-kept m key n = ground (
  arith,
  lookup-insert pre_terminate_hook key (plain "") m.annotations,
  eq_iff pre_terminate_hook key,
)

unchanged-IsStamped :
    (env : Env) (m : Machine) → (is_deleting m ≡ true) ⊎ (is_hooked m ≡ true) → IsStamped env m m
unchanged-IsStamped env m c = record {
  alone = λ _. refl;
  hooked = λ d _. ground arith;
  kept = λ _. refl;
  deletion = refl;
  others = λ _ _. refl;
}

hooked-IsStamped :
    (env : Env) (m : Machine)
    → is_deleting m ≡ false
    → is_hooked m ≡ false
    → IsStamped env m (set_annotation pre_terminate_hook (plain "") m)
hooked-IsStamped env m d k = record {
  alone = λ a. absurd (ground arith);
  hooked = λ _ _. hook-set m;
  kept = λ a. absurd (ground arith);
  deletion = refl;
  others = other-kept m;
}

refused-IsStamped :
    (env : Env) (m : Machine) (e : Error) → env.helper m ≡ some e → IsStamped env m m
refused-IsStamped env m e h = record {
  alone = λ _. refl;
  hooked = λ _ a. absurd (ground arith);
  kept = λ _. refl;
  deletion = refl;
  others = λ _ _. refl;
}

patch_with-machine :
    (env : Env) (t : String) (change : Machine → Machine) (m : Machine)
    → (patch_with env t change m).machine ≡ (if is_some (env.helper m) then m else change m)
unfolding patch_with
patch_with-machine env t change m = elim (Option-cases (env.helper m)) [
  | inl e ↦ ground arith
  | inr (w, e) ↦ ground arith
]

stamp_hook-IsStamped : (env : Env) (m : Machine) → IsStamped env m (stamp_hook env m).machine
unfolding stamp_hook
stamp_hook-IsStamped env m = elim (Bool-cases (is_deleting m)) [
  | inl d ↦ simp d (unchanged-IsStamped env m (inl d))
  | inr d ↦ elim (Bool-cases (is_hooked m)) [
    | inl k ↦ simp (d, k) (unchanged-IsStamped env m (inr k))
    | inr k ↦ elim (Option-cases (env.helper m)) [
      | inl e ↦ simp (d, k, patch_with-machine, e) (hooked-IsStamped env m d k)
      | inr (w, e) ↦ simp (d, k, patch_with-machine, e) (refused-IsStamped env m w e)
    ]
  ]
]

-- The machines of two lists correspond.
pub AllStamped : Env → List Machine → List Machine → Type 0
AllStamped env [] [] = Unit
AllStamped env (m ∷ ms) (n ∷ ns) = IsStamped env m n × AllStamped env ms ns
AllStamped env _ _ = ⊥

-- Stamping leaves every machine in its place: one that is being deleted or has the hook as it was,
-- any other one with the hook, whether or not its patch succeeds, if its patch helper could be made;
-- and no other annotation of any machine changes.
pub stamp_pre_terminate_hooks-AllStamped :
    (env : Env) (ms : List Machine) → AllStamped env ms (stamp_pre_terminate_hooks env ms).0
unfolding stamp_pre_terminate_hooks AllStamped
stamp_pre_terminate_hooks-AllStamped env [] = tt
stamp_pre_terminate_hooks-AllStamped env (m ∷ ms) =
    (stamp_hook-IsStamped env m, stamp_pre_terminate_hooks-AllStamped env ms)
