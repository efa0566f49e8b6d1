-- ===== src/Base/Text.antt =====
-- Texts as code points: lower case, what stands before a separator, and the order of
-- `strings.Compare`.
use Prim.Native.Nat.{ℕ, ◌+◌, compare, Ordering}
use Prim.Native.Char.{code}
use Prim.Native.String.{String}
use text.Mathlib.TextEquality.{Char-path}
use mathlib.Core.Path.{◌≡◌, refl}
use mathlib.Core.Bool.{Bool, true, false, ◌&&◌}
use mathlib.Core.List.{List, [], ◌∷◌, map}
use native.Mathlib.Omega.{arith}
use cluster_api_control_plan.Base.Tests.{leb, ◌==◌, if◌then◌else◌}
use cluster_api_control_plan.Base.Order.{Cmp, flip, then_by, IsOrder, on-IsOrder}

-- The code points of a text.
abbrev pub codes : String → List ℕ
codes String.[] = []
codes (String.◌∷◌ c s) = code c ∷ codes s

abbrev pub compare_codes : Cmp (List ℕ)
compare_codes [] [] = Ordering.eq
compare_codes [] (y ∷ ys) = Ordering.lt
compare_codes (x ∷ xs) [] = Ordering.gt
compare_codes (x ∷ xs) (y ∷ ys) = then_by (compare x y) (compare_codes xs ys)

-- `strings.Compare`: code points compare as their UTF-8 bytes do.
abbrev pub compare_string : Cmp String
compare_string s t = compare_codes (codes s) (codes t)

-- `strings.ToLower` of one character, on ASCII.
abbrev pub lower_code : ℕ → ℕ
lower_code c = if leb b'A' c && leb c b'Z' then c + 32 else c

-- `strings.ToLower`
abbrev pub to_lower : String → List ℕ
to_lower s = map lower_code (codes s)

-- What `strings.Cut` returns in front of the first separator, or the whole text.
abbrev pub before : ℕ → List ℕ → List ℕ
before sep [] = []
before sep (c ∷ cs) = let rest = before sep cs in if c == sep then [] else c ∷ rest

abbrev pub codes_eq : List ℕ → List ℕ → Bool
codes_eq [] [] = true
codes_eq [] (y ∷ ys) = false
codes_eq (x ∷ xs) [] = false
codes_eq (x ∷ xs) (y ∷ ys) = x == y && codes_eq xs ys

pub codes_eq_refl : (xs : List ℕ) → codes_eq xs xs ≡ true
codes_eq_refl [] = refl
codes_eq_refl (x ∷ xs) = ground (arith, codes_eq_refl xs)

pub codes_eq→eq : (xs ys : List ℕ) → codes_eq xs ys ≡ true → xs ≡ ys
codes_eq→eq [] [] h = refl
codes_eq→eq [] (y ∷ ys) h = cc
codes_eq→eq (x ∷ xs) [] h = cc
codes_eq→eq (x ∷ xs) (y ∷ ys) h = ground (arith, codes_eq→eq xs ys)

codes_swap : (a b : List ℕ) → compare_codes b a ≡ flip (compare_codes a b)
codes_swap [] [] = refl
codes_swap [] (y ∷ ys) = refl
codes_swap (x ∷ xs) [] = refl
codes_swap (x ∷ xs) (y ∷ ys) = ground (arith, codes_swap xs ys)

codes_same :
    (a b c : List ℕ) → compare_codes a b ≡ Ordering.eq → compare_codes a c ≡ compare_codes b c
codes_same [] [] c e = refl
codes_same [] (y ∷ ys) c e = cc
codes_same (x ∷ xs) [] c e = cc
codes_same (x ∷ xs) (y ∷ ys) [] e = refl
codes_same (x ∷ xs) (y ∷ ys) (z ∷ zs) e = ground (arith, codes_same xs ys zs)

codes_below :
    (a b c : List ℕ)
    → compare_codes a b ≡ Ordering.lt
    → compare_codes b c ≡ Ordering.lt
    → compare_codes a c ≡ Ordering.lt
codes_below a [] [] p q = cc
codes_below [] [] (z ∷ zs) p q = refl
codes_below (x ∷ xs) [] (z ∷ zs) p q = cc
codes_below a (y ∷ ys) [] p q = cc
codes_below [] (y ∷ ys) (z ∷ zs) p q = refl
codes_below (x ∷ xs) (y ∷ ys) (z ∷ zs) p q = ground (arith, codes_below xs ys zs)

codes-IsOrder : IsOrder compare_codes
codes-IsOrder = record { swap = codes_swap; same = codes_same; below = codes_below }

pub string-IsOrder : IsOrder compare_string
string-IsOrder = on-IsOrder codes codes-IsOrder

-- Texts that compare as equal are equal.
pub compare_string-eq : (s t : String) → compare_string s t ≡ Ordering.eq → s ≡ t
compare_string-eq String.[] String.[] h = refl
compare_string-eq String.[] (String.◌∷◌ d t) h = cc
compare_string-eq (String.◌∷◌ c s) String.[] h = cc
compare_string-eq (String.◌∷◌ c s) (String.◌∷◌ d t) h =
    let e = Char-path c d (ground arith) in
    let f = compare_string-eq s t (ground arith) in λ i. String.◌∷◌ (e i) (f i)
