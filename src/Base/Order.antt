-- ===== src/Base/Order.antt =====
-- Comparison functions as Go's `slices.SortFunc` takes them, their lexicographic products, and a
-- stable sort. `lt`, `eq` and `gt` stand for a negative, a zero and a positive result.
use Prim.Native.Nat.{compare, Ordering}
use mathlib.Core.Path.{◌≡◌, refl, sym, subst}
use mathlib.Core.Logic.{inl, inr}
use mathlib.Core.Bool.{Bool, true, false}
use mathlib.Core.Option.{some}
use mathlib.Core.List.{List, [], ◌∷◌}
use native.Mathlib.Omega.{arith}
use cluster_api_control_plan.Base.Lists.{All, In, All-map, All-In, All-of_In, head?}
use cluster_api_control_plan.Base.Tests.{Bool-cases}

abbrev pub Cmp : Type 0 → Type 0
Cmp A = A → A → Ordering

abbrev pub flip : Ordering → Ordering
flip Ordering.lt = Ordering.gt
flip Ordering.eq = Ordering.eq
flip Ordering.gt = Ordering.lt

-- The first comparison that tells two values apart decides.
abbrev pub then_by : Ordering → Ordering → Ordering
then_by Ordering.eq o = o
then_by o _ = o

-- The result of a comparison does not say `gt`.
abbrev pub at_most : Ordering → Bool
at_most Ordering.gt = false
at_most _ = true

pub record IsOrder {A : Type 0} (cmp : Cmp A) : Type 0 where
  pub swap : (a b : A) → cmp b a ≡ flip (cmp a b)
  pub same : (a b c : A) → cmp a b ≡ Ordering.eq → cmp a c ≡ cmp b c
  pub below : (a b c : A) → cmp a b ≡ Ordering.lt → cmp b c ≡ Ordering.lt → cmp a c ≡ Ordering.lt

module _ {A : Type 0} {cmp : Cmp A} (o : IsOrder cmp) where
  pub at_most_trans :
      (a b c : A) → at_most (cmp a b) ≡ true → at_most (cmp b c) ≡ true → at_most (cmp a c) ≡ true
  at_most_trans a b c p q =
      ground (arith, o.same a b c, o.same b c a, o.below a b c, o.swap a b, o.swap a c, o.swap b c)

  pub at_most_total : (a b : A) → at_most (cmp a b) ≡ false → at_most (cmp b a) ≡ true
  at_most_total a b p = ground (arith, o.swap a b)

  pub at_most_refl : (a : A) → at_most (cmp a a) ≡ true
  at_most_refl a = ground (arith, o.swap a a)

pub ℕ-IsOrder : IsOrder compare
ℕ-IsOrder = record {
  swap = λ a b. ground arith;
  same = λ a b c p. ground arith;
  below = λ a b c p q. ground arith;
}

-- `first(a, b)`: `a` comes first when only it has the property.
abbrev pub first : Bool → Bool → Ordering
first true true = Ordering.eq
first false false = Ordering.eq
first true false = Ordering.lt
first false true = Ordering.gt

pub first-IsOrder : IsOrder first
first-IsOrder = record {
  swap = λ a b. ground arith;
  same = λ a b c p. ground arith;
  below = λ a b c p q. ground arith;
}

-- The order that a key gives.
pub on-IsOrder :
    {A B : Type 0} (f : A → B) {cmp : Cmp B} → IsOrder cmp → IsOrder (λ x y. cmp (f x) (f y))
on-IsOrder f o = record {
  swap = λ a b. o.swap (f a) (f b);
  same = λ a b c. o.same (f a) (f b) (f c);
  below = λ a b c. o.below (f a) (f b) (f c);
}

pub then_by-IsOrder :
    {A : Type 0} {c d : Cmp A} → IsOrder c → IsOrder d → IsOrder (λ x y. then_by (c x y) (d x y))
then_by-IsOrder p q = record {
  swap = λ a b. ground (arith, p.swap a b, q.swap a b);
  same = λ x y z e. ground (arith, p.same x y z, q.same x y z);
  below = λ x y z e f. ground (
    arith,
    p.same x y z,
    p.same y z x,
    p.swap x y,
    p.swap x z,
    p.swap y z,
    p.below x y z,
    q.below x y z,
  );
}

-- Insertion sort: an element comes in front of the later ones that it is equal to, so the sort is
-- stable, and what a stable sort returns is determined by its comparison.
module _ {A : Type 0} (cmp : Cmp A) where
  abbrev pub insert_by : A → List A → List A
  insert_by x [] = x ∷ []
  insert_by x (y ∷ ys) =
      let rest = insert_by x ys in elim (at_most (cmp x y)) [ true ↦ x ∷ y ∷ ys | false ↦ y ∷ rest ]

  abbrev pub sort_by : List A → List A
  sort_by [] = []
  sort_by (x ∷ xs) = insert_by x (sort_by xs)

module _ {A : Type 0} (cmp : Cmp A) where
  insert_by-In : (a x : A) (ys : List A) → In a (x ∷ ys) → In a (insert_by cmp x ys)
  insert_by-In a x [] m = m
  insert_by-In a x (y ∷ ys) (inl e) = ground (arith, insert_by-In a x ys (inl e))
  insert_by-In a x (y ∷ ys) (inr m) = ground (arith, λ (n : In a ys). insert_by-In a x ys (inr n))

  In-insert_by : (a x : A) (ys : List A) → In a (insert_by cmp x ys) → In a (x ∷ ys)
  In-insert_by a x [] m = m
  In-insert_by a x (y ∷ ys) m = ground (arith, In-insert_by a x ys)

  -- Sorting keeps the elements.
  pub sort_by-In : (a : A) (xs : List A) → In a xs → In a (sort_by cmp xs)
  sort_by-In a [] m = m
  sort_by-In a (x ∷ xs) (inl e) = insert_by-In a x (sort_by cmp xs) (inl e)
  sort_by-In a (x ∷ xs) (inr m) = insert_by-In a x (sort_by cmp xs) (inr (sort_by-In a xs m))

  pub In-sort_by : (a : A) (xs : List A) → In a (sort_by cmp xs) → In a xs
  In-sort_by a [] m = m
  In-sort_by a (x ∷ xs) m = elim (In-insert_by a x (sort_by cmp xs) m) [
    | inl e ↦ inl e
    | inr n ↦ inr (In-sort_by a xs n)
  ]

  -- Each element comes in front of all later ones.
  abbrev pub IsSortedBy : List A → Type 0
  IsSortedBy [] = Unit
  IsSortedBy (x ∷ xs) = All (λ y. at_most (cmp x y) ≡ true) xs × IsSortedBy xs

module _ {A : Type 0} {cmp : Cmp A} (o : IsOrder cmp) where
  All-insert_by :
      (P : A → Type 0) (x : A) (ys : List A) → P x → All P ys → All P (insert_by cmp x ys)
  All-insert_by P x [] px all = (px, tt)
  All-insert_by P x (y ∷ ys) px all = ground (arith, All-insert_by P x ys px all.1)

  insert_by-IsSortedBy :
      (x : A) (ys : List A) → IsSortedBy cmp ys → IsSortedBy cmp (insert_by cmp x ys)
  insert_by-IsSortedBy x [] s = (tt, tt)
  insert_by-IsSortedBy x (y ∷ ys) s = elim (Bool-cases (at_most (cmp x y))) [
    | inl t ↦ rw (t, IsSortedBy) ((t, All-map _ _ ys (λ z. at_most_trans o x y z t) s.0), s)
    | inr f ↦
        rw (f, IsSortedBy)
          (All-insert_by _ x ys (at_most_total o x y f) s.0, insert_by-IsSortedBy x ys s.1)
  ]

  pub sort_by-IsSortedBy : (xs : List A) → IsSortedBy cmp (sort_by cmp xs)
  sort_by-IsSortedBy [] = tt
  sort_by-IsSortedBy (x ∷ xs) = insert_by-IsSortedBy x (sort_by cmp xs) (sort_by-IsSortedBy xs)

  -- The first of the sorted list is one of the list, and no element comes in front of it.
  pub head?-sort_by :
      (xs : List A) {x : A}
      → head? (sort_by cmp xs) ≡ some x
      → In x xs × All (λ y. at_most (cmp x y) ≡ true) xs
  head?-sort_by xs {x} h = go (sort_by cmp xs) refl (sort_by-IsSortedBy xs) h
    where
      go :
          (ys : List A)
          → sort_by cmp xs ≡ ys
          → IsSortedBy cmp ys
          → head? ys ≡ some x
          → In x xs × All (λ y. at_most (cmp x y) ≡ true) xs
      go [] e s p = cc
      go (y ∷ ys) e s p =
          let e' : y ≡ x = ground arith in
          let least : All (λ z. at_most (cmp x z) ≡ true) (y ∷ ys) =
            subst (λ w. All (λ z. at_most (cmp w z) ≡ true) (y ∷ ys)) e' (at_most_refl o y, s.0) in
          (
            In-sort_by cmp x xs (subst (In x) (sym e) (inl (sym e'))),
            All-of_In _ xs
                (λ z m. All-In _ (y ∷ ys) z least (subst (In z) e (sort_by-In cmp z xs m))),
          )
