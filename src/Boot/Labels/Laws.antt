-- ===== src/Boot/Labels/Laws.antt =====
-- The hash is a 32-bit number, its hexadecimal text is read back as the number, and so a label value
-- is valid and tells hashes apart.
use Prim.Native.Nat.{bit_xor, ◌^◌}
use Prim.Native.Char.{code}
use native.Mathlib.Nat.{pow-suc}
use cluster_api_control_plan.Base.{
  ℕ, zero, suc, ◌+◌, ◌-◌, ◌*◌, ◌/◌, ◌%◌, ◌<◌, ◌≤◌, ◌≡◌, ◌⊎◌, inl, inr, Bool, true, false, List, [],
  ◌∷◌, String, codes, length, All, leb, ltb, if◌then◌else◌, arith, refl, ap, ◌∙◌, Bool-cases, ◌&&◌,
  ◌||◌, ◌==◌, ltb→lt,
}
use cluster_api_control_plan.Boot.Labels.{
  LabelRules, fnv32a_from, fnv32a, digit, hex_from, hex, must_format_value,
}

fnv32a_from-lt : (bs : List ℕ) (hash : ℕ) → hash < 2 ^ 32 → fnv32a_from hash bs < 2 ^ 32
unfolding fnv32a_from
fnv32a_from-lt [] hash h = h
fnv32a_from-lt (b ∷ bs) hash h =
    fnv32a_from-lt bs (bit_xor hash b * 16777619 % 2 ^ 32) (omega arith)

pub fnv32a-lt : (s : String) → fnv32a s < 2 ^ 32
unfolding fnv32a
fnv32a-lt s = fnv32a_from-lt (codes s) 2166136261 (omega arith)

-- What a hexadecimal digit stands for.
digit_value : ℕ → ℕ
digit_value c = if leb c b'9' then c - b'0' else c - b'a' + 10

==→eq : (a b : ℕ) → (a == b) ≡ true → a ≡ b
==→eq a b h = ground arith

both_true : {a b : Bool} → (a && b) ≡ true → (a ≡ true) × (b ≡ true)
both_true h = ground arith

-- What a text of hexadecimal digits stands for, behind a number.
read_from : ℕ → List ℕ → ℕ
read_from n [] = n
read_from n (c ∷ cs) = read_from (n * 16 + digit_value c) cs

pub read_hex : String → ℕ
read_hex s = read_from 0 (codes s)

abbrev pub is_hex_digit : ℕ → Bool
is_hex_digit c = (leb b'0' c && leb c b'9') || (leb b'a' c && leb c b'f')

abbrev is_right : ℕ → Bool
is_right n = digit_value (code (digit n)) == n && is_hex_digit (code (digit n))

-- The digits of the numbers under `limit` are right.
abbrev digits_hold : ℕ → Bool
digits_hold zero = true
digits_hold (suc top) = if is_right top then digits_hold top else false

digits_hold→is_right : (n limit : ℕ) → n < limit → digits_hold limit ≡ true → is_right n ≡ true
digits_hold→is_right n zero lt h = absurd (omega arith)
digits_hold→is_right n (suc top) lt h =
    let earlier = digits_hold→is_right n top in ground (arith, earlier)

sixteen_digits : digits_hold 16 ≡ true
unfolding digit digit_value
sixteen_digits = refl

digit_lem : (n : ℕ) → n < 16 → is_right n ≡ true
digit_lem n h = digits_hold→is_right n 16 h sixteen_digits

digit_value-digit : (n : ℕ) → n < 16 → digit_value (code (digit n)) ≡ n
digit_value-digit n h = ==→eq _ n (both_true (digit_lem n h)).0

digit-is_hex_digit : (n : ℕ) → n < 16 → is_hex_digit (code (digit n)) ≡ true
digit-is_hex_digit n h = (both_true (digit_lem n h)).1

power_step : (fuel : ℕ) → 16 ^ suc fuel ≡ 16 * 16 ^ fuel
power_step fuel = omega (arith, pow-suc 16 fuel)

-- A number that the fuel has digits for is written in full.
hex_from-reads :
    (fuel n : ℕ) (rest : String)
    → n < 16 ^ fuel
    → read_from 0 (codes (hex_from fuel n rest)) ≡ read_from n (codes rest)
unfolding hex_from read_from
hex_from-reads zero n rest h = let e : 0 ≡ n = omega arith in ap (λ k. read_from k (codes rest)) e
hex_from-reads (suc fuel) n rest h = elim (Bool-cases (ltb n 16)) [
  | inl t ↦
      let e : 0 * 16 + digit_value (code (digit n)) ≡ n =
        omega (arith, digit_value-digit n (ltb→lt n 16 t)) in
      rw t (ap (λ k. read_from k (codes rest)) e)
  | inr f ↦
      let below : n / 16 < 16 ^ fuel = omega (arith, power_step fuel) in
      let e : n / 16 * 16 + digit_value (code (digit (n % 16))) ≡ n =
        omega (arith, digit_value-digit (n % 16) (omega arith)) in
      rw f (
        hex_from-reads fuel (n / 16) (String.◌∷◌ (digit (n % 16)) rest) below
        ∙ ap (λ k. read_from k (codes rest)) e)
]

-- The text of a 32-bit number stands for the number.
read_hex-hex : (n : ℕ) → n < 2 ^ 32 → read_hex (hex n) ≡ n
unfolding hex read_hex read_from
read_hex-hex n h = hex_from-reads 8 n "" h

-- Every digit that is written is one.
hex_from-digits :
    (fuel n : ℕ) (rest : String)
    → All (λ c. is_hex_digit c ≡ true) (codes rest)
    → All (λ c. is_hex_digit c ≡ true) (codes (hex_from fuel n rest))
unfolding hex_from
hex_from-digits zero n rest h = h
hex_from-digits (suc fuel) n rest h = elim (Bool-cases (ltb n 16)) [
  | inl t ↦ rw t (digit-is_hex_digit n (ltb→lt n 16 t), h)
  | inr f ↦ rw f (
      hex_from-digits fuel (n / 16) (String.◌∷◌ (digit (n % 16)) rest)
        (digit-is_hex_digit (n % 16) (omega arith), h))
]

hex_from-length :
    (fuel n : ℕ) (rest : String)
    → length (codes (hex_from fuel n rest)) ≤ length (codes rest) + fuel
unfolding hex_from
hex_from-length zero n rest = omega arith
hex_from-length (suc fuel) n rest = elim (Bool-cases (ltb n 16)) [
  | inl t ↦ rw t (omega arith)
  | inr f ↦ rw f (omega (arith, hex_from-length fuel (n / 16) (String.◌∷◌ (digit (n % 16)) rest)))
]

hex_from-nonempty :
    (fuel n : ℕ) (rest : String)
    → 1 ≤ length (codes rest) + fuel
    → 1 ≤ length (codes (hex_from fuel n rest))
unfolding hex_from
hex_from-nonempty zero n rest h = omega arith
hex_from-nonempty (suc fuel) n rest h = elim (Bool-cases (ltb n 16)) [
  | inl t ↦ rw t (omega arith)
  | inr f ↦ rw f (hex_from-nonempty fuel (n / 16) (String.◌∷◌ (digit (n % 16)) rest) (omega arith))
]

-- The value is the name, if that is valid, or, if it is not, the hash of the name in hexadecimal.
abbrev pub IsLabelOf : LabelRules → String → Type 0
IsLabelOf rules name =
    (rules.is_valid_label_value name ≡ true) × (must_format_value rules name ≡ name)
    ⊎ (rules.is_valid_label_value name ≡ false)
      × (1 ≤ length (codes (must_format_value rules name)))
      × (length (codes (must_format_value rules name)) ≤ 8)
      × All (λ c. is_hex_digit c ≡ true) (codes (must_format_value rules name))
      × (read_hex (must_format_value rules name) ≡ fnv32a name)

-- A label value of this controller is the name where that is valid; where it is not, it is a text of
-- one to eight hexadecimal digits that stands for the name's 32-bit hash.
pub must_format_value-IsLabel : (rules : LabelRules) (name : String) → IsLabelOf rules name
unfolding must_format_value hex
must_format_value-IsLabel rules name = elim (Bool-cases (rules.is_valid_label_value name)) [
  | inl t ↦ inl (t, rw t refl)
  | inr f ↦ inr (
    f,
    rw f (hex_from-nonempty 8 (fnv32a name) "" (omega arith)),
    rw f (hex_from-length 8 (fnv32a name) ""),
    rw f (hex_from-digits 8 (fnv32a name) "" tt),
    rw f (read_hex-hex (fnv32a name) (fnv32a-lt name)),
  )
]
