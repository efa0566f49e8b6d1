-- ===== src/Base/Lists.antt =====
-- Lists measured by native numbers and searched by Boolean tests.
use Prim.Native.Nat.{ℕ, suc, ◌+◌, ◌≤◌}
use mathlib.Core.Path.{◌≡◌, refl, sym}
use mathlib.Core.Logic.{◌⊎◌, inl, inr}
use mathlib.Core.Bool.{Bool, true, false, ◌||◌}
use mathlib.Core.Option.{Option, none, some}
use mathlib.Core.List.{List, [], ◌∷◌, ◌++◌}
use native.Mathlib.Omega.{arith}
use cluster_api_control_plan.Base.Tests.{if◌then◌else◌, Bool-cases}

module _ {ℓ} {A : Type ℓ} where
  abbrev pub length : List A → ℕ
  length [] = 0
  length (x ∷ xs) = suc (length xs)

  -- The tests of `slices.ContainsFunc`, and of a loop that appends what passes.
  abbrev pub any : (A → Bool) → List A → Bool
  any p [] = false
  any p (x ∷ xs) = p x || any p xs

  abbrev pub filter : (A → Bool) → List A → List A
  filter p [] = []
  filter p (x ∷ xs) = if p x then x ∷ filter p xs else filter p xs

  abbrev pub count : (A → Bool) → List A → ℕ
  count p [] = 0
  count p (x ∷ xs) = if p x then suc (count p xs) else count p xs

  abbrev pub find? : (A → Bool) → List A → Option A
  find? p [] = none
  find? p (x ∷ xs) = if p x then some x else find? p xs

  abbrev pub head? : List A → Option A
  head? [] = none
  head? (x ∷ _) = some x

  abbrev pub All : (A → Type 0) → List A → Type 0
  All P [] = Unit
  All P (x ∷ xs) = P x × All P xs

  abbrev pub Any : (A → Type 0) → List A → Type 0
  Any P [] = ⊥
  Any P (x ∷ xs) = P x ⊎ Any P xs

module _ {ℓ} {A : Type ℓ} where
  pub any-append : (p : A → Bool) (xs ys : List A) → any p (xs ++ ys) ≡ (any p xs || any p ys)
  any-append p [] ys = refl
  any-append p (x ∷ xs) ys = ground (arith, any-append p xs ys)

module _ {A : Type 0} where
  -- `x` is one of `xs`.
  abbrev pub In : A → List A → Type 0
  In x xs = Any (λ y. x ≡ y) xs

  pub All-In : (P : A → Type 0) (xs : List A) (x : A) → All P xs → In x xs → P x
  All-In P [] x all m = absurd m
  All-In P (y ∷ ys) x all (inl e) = rw e all.0
  All-In P (y ∷ ys) x all (inr m) = All-In P ys x all.1 m

  pub All-of_In : (P : A → Type 0) (xs : List A) → ((x : A) → In x xs → P x) → All P xs
  All-of_In P [] h = tt
  All-of_In P (y ∷ ys) h = (h y (inl refl), All-of_In P ys (λ x m. h x (inr m)))

  pub All-map : (P Q : A → Type 0) (xs : List A) → ((x : A) → P x → Q x) → All P xs → All Q xs
  All-map P Q [] f all = tt
  All-map P Q (x ∷ xs) f all = (f x all.0, All-map P Q xs f all.1)

  pub append-In : (x : A) (xs ys : List A) → In x xs ⊎ In x ys → In x (xs ++ ys)
  append-In x [] ys (inl m) = absurd m
  append-In x [] ys (inr m) = m
  append-In x (y ∷ xs) ys (inl (inl e)) = inl e
  append-In x (y ∷ xs) ys (inl (inr m)) = inr (append-In x xs ys (inl m))
  append-In x (y ∷ xs) ys (inr m) = inr (append-In x xs ys (inr m))

  pub In-append : (x : A) (xs ys : List A) → In x (xs ++ ys) → In x xs ⊎ In x ys
  In-append x [] ys m = inr m
  In-append x (y ∷ xs) ys (inl e) = inl (inl e)
  In-append x (y ∷ xs) ys (inr m) = elim (In-append x xs ys m) [
    | inl a ↦ inl (inr a)
    | inr b ↦ inr b
  ]

  pub In-filter : (p : A → Bool) (xs : List A) (x : A) → In x (filter p xs) → In x xs × (p x ≡ true)
  In-filter p [] x m = absurd m
  In-filter p (y ∷ ys) x m = elim (Bool-cases (p y)) [
    | inl t ↦
        let m' : In x (y ∷ filter p ys) = rw t at m in
        elim m' [
          | inl e ↦ (inl e, rw e t)
          | inr n ↦ let (n', px) = In-filter p ys x n in (inr n', px)
        ]
    | inr f ↦ let (m', px) = In-filter p ys x (rw f at m) in (inr m', px)
  ]

  pub filter-In : (p : A → Bool) (xs : List A) (x : A) → In x xs → p x ≡ true → In x (filter p xs)
  filter-In p [] x m px = absurd m
  filter-In p (y ∷ ys) x (inl e) px = rw (← e) (rw px (inl refl))
  filter-In p (y ∷ ys) x (inr m) px = elim (Bool-cases (p y)) [
    | inl t ↦ rw t (inr (filter-In p ys x m px))
    | inr f ↦ rw f (filter-In p ys x m px)
  ]

  pub any-In : (p : A → Bool) (xs : List A) (x : A) → In x xs → p x ≡ true → any p xs ≡ true
  any-In p [] x m px = absurd m
  any-In p (y ∷ ys) x (inl e) px = rw (← e) (rw px refl)
  any-In p (y ∷ ys) x (inr m) px = rw (any-In p ys x m px) (ground arith)

  pub any→In : (p : A → Bool) (xs : List A) → any p xs ≡ true → (x : A) × In x xs × (p x ≡ true)
  any→In p [] h = cc
  any→In p (y ∷ ys) h = elim (Bool-cases (p y)) [
    | inl t ↦ (y, inl refl, t)
    | inr f ↦ let (x, m, px) = any→In p ys (rw f at h) in (x, inr m, px)
  ]

  pub any-false : (p : A → Bool) (xs : List A) → any p xs ≡ false → All (λ x. p x ≡ false) xs
  any-false p [] h = tt
  any-false p (y ∷ ys) h = (ground arith, any-false p ys (ground arith))

  pub find?-some :
      (p : A → Bool) (xs : List A) {x : A} → find? p xs ≡ some x → In x xs × (p x ≡ true)
  find?-some p [] h = cc
  find?-some p (y ∷ ys) {x} h = elim (Bool-cases (p y)) [
    | inl t ↦ let e : y ≡ x = ground arith in (inl (sym e), rw (← e) t)
    | inr f ↦ let (m, px) = find?-some p ys (rw f at h) in (inr m, px)
  ]

  pub find?-none : (p : A → Bool) (xs : List A) → find? p xs ≡ none → All (λ x. p x ≡ false) xs
  find?-none p [] h = tt
  find?-none p (y ∷ ys) h = elim (Bool-cases (p y)) [
    | inl t ↦ absurd (ground arith)
    | inr f ↦ (f, find?-none p ys (rw f at h))
  ]

  pub count-le-length : (p : A → Bool) (xs : List A) → count p xs ≤ length xs
  count-le-length p [] = omega arith
  count-le-length p (x ∷ xs) = ground (arith, count-le-length p xs)

  pub count-append : (p : A → Bool) (xs ys : List A) → count p (xs ++ ys) ≡ count p xs + count p ys
  count-append p [] ys = omega arith
  count-append p (x ∷ xs) ys = ground (arith, count-append p xs ys)

  pub count_mono :
      (p q : A → Bool) (xs : List A) → ((x : A) → p x ≡ true → q x ≡ true) → count p xs ≤ count q xs
  count_mono p q [] h = omega arith
  count_mono p q (x ∷ xs) h = ground (arith, h x, count_mono p q xs h)
