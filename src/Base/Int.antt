-- ===== src/Base/Int.antt =====
-- Go's signed numbers, and the sum of two of them as an int32.
use Prim.Native.Nat.{ℕ, suc, ◌+◌, ◌-◌, ◌%◌, ◌^◌, ◌≤◌, ◌<◌}
use mathlib.Core.Path.{◌≡◌, refl}
use mathlib.Core.Logic.{◌↔◌}
use mathlib.Core.Bool.{Bool, true, false}
use native.Mathlib.Omega.{arith}
use cluster_api_control_plan.Base.Tests.{ltb, leb, ltb→lt, leb→le}

-- `negsuc n` is -(n + 1).
pub data ℤ : Type 0 where
  pos : ℕ → ℤ
  negsuc : ℕ → ℤ

-- `n < z`, `z < n` and `z <= n`, for the number of some machines and a signed number.
abbrev pub is_below : ℕ → ℤ → Bool
is_below n (pos k) = ltb n k
is_below n (negsuc k) = false

abbrev pub is_above : ℕ → ℤ → Bool
is_above n (pos k) = ltb k n
is_above n (negsuc k) = true

abbrev pub reaches : ℕ → ℤ → Bool
reaches n (pos k) = leb k n
reaches n (negsuc k) = true

-- The same as types.
abbrev pub IsBelow : ℕ → ℤ → Type 0
IsBelow n (pos k) = n < k
IsBelow n (negsuc k) = ⊥

abbrev pub IsAbove : ℕ → ℤ → Type 0
IsAbove n (pos k) = k < n
IsAbove n (negsuc k) = Unit

abbrev pub IsReached : ℕ → ℤ → Type 0
IsReached n (pos k) = k ≤ n
IsReached n (negsuc k) = Unit

pub is_below→IsBelow : (n : ℕ) (z : ℤ) → is_below n z ≡ true → IsBelow n z
is_below→IsBelow n (pos k) h = ltb→lt n k h
is_below→IsBelow n (negsuc k) h = cc

pub is_above→IsAbove : (n : ℕ) (z : ℤ) → is_above n z ≡ true → IsAbove n z
is_above→IsAbove n (pos k) h = ltb→lt k n h
is_above→IsAbove n (negsuc k) h = tt

pub reaches_iff : (n : ℕ) (z : ℤ) → (reaches n z ≡ true) ↔ IsReached n z
reaches_iff n (pos k) = (leb→le k n, λ h. ground arith)
reaches_iff n (negsuc k) = (λ h. tt, λ h. refl)

-- `uint32(z)`: the 32 bits of a number, in two's complement. `int32(z)` has the same bits.
abbrev pub word : ℤ → ℕ
word (pos k) = k % 2 ^ 32
word (negsuc k) = 2 ^ 32 - 1 - k % 2 ^ 32

-- `a < b` of the int32 numbers with the bits `a` and `b`: their order once the top bit is flipped.
abbrev pub word_below : ℕ → ℕ → Bool
word_below a b = ltb ((a + 2 ^ 31) % 2 ^ 32) ((b + 2 ^ 31) % 2 ^ 32)

-- `int32(n) < a + int32(z)`, where the sum wraps around
unfoldable pub below_sum : ℕ → ℤ → ℤ → Bool
below_sum n a z = word_below (word (pos n)) ((word a + word z) % 2 ^ 32)

-- `n < a + z` without a width
abbrev pub below_exact_sum : ℕ → ℤ → ℤ → Bool
below_exact_sum n (pos a) (pos k) = ltb n (a + k)
below_exact_sum n (pos a) (negsuc k) = ltb (n + suc k) a
below_exact_sum n (negsuc a) (pos k) = ltb (n + suc a) k
below_exact_sum n (negsuc a) (negsuc k) = false

-- The number of machines and the sum are int32 numbers.
abbrev pub Fits : ℕ → ℤ → ℤ → Type 0
Fits n (pos a) (pos k) = (n < 2 ^ 31) × (a + k < 2 ^ 31)
Fits n (pos a) (negsuc k) = (n < 2 ^ 31) × (a < suc k + 2 ^ 31) × (suc k ≤ a + 2 ^ 31)
Fits n (negsuc a) (pos k) = (n < 2 ^ 31) × (k < suc a + 2 ^ 31) × (suc a ≤ k + 2 ^ 31)
Fits n (negsuc a) (negsuc k) = (n < 2 ^ 31) × (suc a + suc k ≤ 2 ^ 31)

-- The int32 test is the exact one where nothing overflows.
pub below_sum-exact : (n : ℕ) (a z : ℤ) → Fits n a z → below_sum n a z ≡ below_exact_sum n a z
unfolding below_sum
below_sum-exact n (pos a) (pos k) (h, i) = ground arith
below_sum-exact n (pos a) (negsuc k) (h, i, j) = ground arith
below_sum-exact n (negsuc a) (pos k) (h, i, j) = ground arith
below_sum-exact n (negsuc a) (negsuc k) (h, i) = ground arith
