-- ===== src/Base/Int.antt =====
-- Signed integers over the native numbers, and Go's int64 arithmetic on them.
use Prim.Native.Nat.{ℕ, suc, ◌+◌, ◌-◌, ◌*◌, ◌/◌, ◌%◌, ◌≤◌}
use mathlib.Core.Path.{◌≡◌, refl}
use mathlib.Core.Bool.{Bool, true, false}
use native.Mathlib.Omega.{arith}
use subprovisioner.Base.Booleans.{ltb, ltb-asym_ℕ, leb, nat_eq, if◌then◌else◌}

-- `negsuc n` is -(n + 1).
pub data ℤ : Type 0 where
  pos : ℕ → ℤ
  negsuc : ℕ → ℤ

abbrev pub pos_part : ℤ → ℕ
pos_part (pos n) = n
pos_part (negsuc n) = 0

abbrev pub neg_part : ℤ → ℕ
neg_part (pos n) = 0
neg_part (negsuc n) = suc n

-- a - b, as an integer.
abbrev pub sub_ℕ : ℕ → ℕ → ℤ
sub_ℕ a b = if leb b a then pos (a - b) else negsuc (b - a - 1)

-- a < b
abbrev pub ltb_ℤ : ℤ → ℤ → Bool
ltb_ℤ a b = ltb (pos_part a + neg_part b) (pos_part b + neg_part a)

pub ltb-asym : (a b : ℤ) → ltb_ℤ a b ≡ true → ltb_ℤ b a ≡ false
ltb-asym a b = ltb-asym_ℕ (pos_part a + neg_part b) (pos_part b + neg_part a)

abbrev pub eq_ℤ : ℤ → ℤ → Bool
eq_ℤ a b = nat_eq (pos_part a + neg_part b) (pos_part b + neg_part a)

infix 50 ◌≤ℤ◌
abbrev pub ◌≤ℤ◌ : ℤ → ℤ → Type 0
a ≤ℤ b = pos_part a + neg_part b ≤ pos_part b + neg_part a

-- 2 ^ 63 and 2 ^ 64.
abbrev pub half_range : ℕ
half_range = 9223372036854775808

abbrev pub full_range : ℕ
full_range = 18446744073709551616

-- The int64 whose bits are the low 64 bits of an integer.
abbrev pub wrap64 : ℤ → ℤ
wrap64 (pos n) =
    let m = n % full_range in if ltb m half_range then pos m else negsuc (full_range - m - 1)
wrap64 (negsuc n) =
    let m = n % full_range in if ltb m half_range then negsuc m else pos (full_range - m - 1)

abbrev pub add64 : ℤ → ℤ → ℤ
add64 a b = wrap64 (sub_ℕ (pos_part a + pos_part b) (neg_part a + neg_part b))

-- Go's division by a positive number rounds towards 0.
abbrev pub div64 : ℤ → ℕ → ℤ
div64 (pos n) d = pos (n / d)
div64 (negsuc n) d = sub_ℕ 0 (suc n / d)

abbrev pub mul64 : ℤ → ℕ → ℤ
mul64 a d = wrap64 (sub_ℕ (pos_part a * d) (neg_part a * d))

abbrev pub IsInt64 : ℤ → Type 0
IsInt64 a = (pos_part a + 1 ≤ half_range) × (neg_part a ≤ half_range)

pub eq_ℤ→eq : (a b : ℤ) → eq_ℤ a b ≡ true → a ≡ b
eq_ℤ→eq a b h = ground arith

wraps : add64 (pos 9223372036854775807) (pos 1) ≡ negsuc 9223372036854775807
wraps = refl

rounds_towards_zero : div64 (negsuc 6) 2 ≡ negsuc 2
rounds_towards_zero = refl
