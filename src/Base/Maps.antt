-- ===== src/Base/Maps.antt =====
-- Go's maps with text keys, as association lists. Reading the map of a nil pointer is reading [].
use Prim.Native.String.{String}
use mathlib.Core.Path.{◌≡◌, refl}
use mathlib.Core.Bool.{Bool}
use mathlib.Core.Option.{Option, none, some}
use mathlib.Core.List.{List, [], ◌∷◌}
use native.Mathlib.Omega.{arith}
use text.Mathlib.Text.{◌==◌ as str_eq}
use text.Mathlib.TextEquality.{eq_iff}
use cluster_api_control_plan.Base.Tests.{if◌then◌else◌, is_some}

abbrev pub Map : Type 0 → Type 0
Map V = List (String × V)

module _ {V : Type 0} where
  unfoldable pub lookup : String → Map V → Option V
  lookup key [] = none
  lookup key ((other, value) ∷ rest) = if str_eq other key then some value else lookup key rest

  -- `m[k] = v`
  unfoldable pub insert : String → V → Map V → Map V
  insert key new [] = (key, new) ∷ []
  insert key new ((other, value) ∷ rest) =
      if str_eq other key then (key, new) ∷ rest else (other, value) ∷ insert key new rest

  -- `delete(m, k)`
  unfoldable pub erase : String → Map V → Map V
  erase key [] = []
  erase key ((other, value) ∷ rest) =
      if str_eq other key then erase key rest else (other, value) ∷ erase key rest

  -- `_, ok := m[k]`
  abbrev pub has_key : String → Map V → Bool
  has_key key m = is_some (lookup key m)

  pub lookup-insert :
      (key probe : String) (new : V) (m : Map V)
      → lookup probe (insert key new m) ≡ (if str_eq key probe then some new else lookup probe m)
  unfolding lookup insert
  lookup-insert key probe new [] = refl
  lookup-insert key probe new ((other, value) ∷ rest) = ground (
    arith,
    lookup-insert key probe new rest,
    eq_iff other probe,
    eq_iff other key,
    eq_iff key probe,
  )

  pub lookup-erase :
      (key probe : String) (m : Map V)
      → lookup probe (erase key m) ≡ (if str_eq key probe then none else lookup probe m)
  unfolding lookup erase
  lookup-erase key probe [] = ground arith
  lookup-erase key probe ((other, value) ∷ rest) =
      ground
        (arith, lookup-erase key probe rest, eq_iff other probe, eq_iff other key, eq_iff key probe)

  pub lookup-insert_self :
      (key : String) (new : V) (m : Map V) → lookup key (insert key new m) ≡ some new
  lookup-insert_self key new m = ground (arith, lookup-insert key key new m, eq_iff key key)

  pub lookup-erase_self : (key : String) (m : Map V) → lookup key (erase key m) ≡ none
  lookup-erase_self key m = ground (arith, lookup-erase key key m, eq_iff key key)
