-- ===== src/Node/Publish/Modes.antt =====
-- The bits of a file's mode, and which of them `clear_write_bits` leaves.
use Prim.Native.Nat.{min, bit_and, digits, bit_and-bitwise}
use subprovisioner.Base.{
  ℕ, zero, suc, ◌+◌, ◌-◌, ◌*◌, ◌/◌, ◌%◌, ◌≤◌, ◌<◌, ◌≡◌, refl, ◌∙◌, ap, Bool, true, false, ◌&&◌,
  ◌||◌, if◌then◌else◌, nat_eq, arith,
}
use subprovisioner.Node.Publish.{clear_write_bits}

-- Bit `k` of a number.
abbrev pub bit : ℕ → ℕ → ℕ
bit zero n = n % 2
bit (suc k) n = bit k (n / 2)

bit-zero : (k : ℕ) → bit k 0 ≡ 0
bit-zero zero = refl
bit-zero (suc k) = bit-zero k

bit_small : (k n : ℕ) → bit k n ≤ 1
bit_small zero n = omega arith
bit_small (suc k) n = bit_small k (n / 2)

half : (x m : ℕ) → m ≤ 1 → (x * 2 + m) / 2 ≡ x
half x m small = omega arith

bit-digits : (n k a b : ℕ) → a ≤ n → bit k (digits (λ b. zero) min n a b) ≡ min (bit k a) (bit k b)
bit-digits zero k zero b le = rw (bit-zero k) (omega arith)
bit-digits zero k (suc a) b le = absurd (omega arith)
bit-digits (suc n) k zero b le = rw (bit-zero k) (omega arith)
bit-digits (suc n) zero (suc a) b le = omega arith
bit-digits (suc n) (suc k) (suc a) b le =
    ap (bit k) (half _ (min (suc a % 2) (b % 2)) (omega arith))
    ∙ bit-digits n k (suc a / 2) (b / 2) (omega arith)

bit-bit_and : (k a b : ℕ) → bit k (bit_and a b) ≡ min (bit k a) (bit k b)
bit-bit_and k a b = rw (bit_and-bitwise a b) (bit-digits a k a b (omega arith))

-- The permissions to write: of the others, of the group and of the owner.
abbrev pub is_write_bit : ℕ → Bool
is_write_bit k = nat_eq k 1 || nat_eq k 4 || nat_eq k 7

abbrev all_below : ℕ → (ℕ → Bool) → Bool
all_below zero p = true
all_below (suc n) p = p n && all_below n p

all_below-at : (n : ℕ) (p : ℕ → Bool) (k : ℕ) → all_below n p ≡ true → k < n → p k ≡ true
all_below-at zero p k all lt = absurd (omega arith)
all_below-at (suc n) p k all lt = ground (arith, all_below-at n p k)

abbrev mask : ℕ
mask = 0xffffffff - 0o222

abbrev mask_is_right : ℕ → Bool
mask_is_right k = nat_eq (bit k mask) (if is_write_bit k then 0 else 1)

mask_table : all_below 32 mask_is_right ≡ true
mask_table = refl

bit-mask : (k : ℕ) → k < 32 → bit k mask ≡ (if is_write_bit k then 0 else 1)
bit-mask k lt = ground (arith, all_below-at 32 mask_is_right k mask_table lt)

masked :
    (write : Bool) (x m : ℕ)
    → x ≤ 1
    → m ≡ (if write then 0 else 1)
    → min x m ≡ (if write then 0 else x)
masked true x m small e = omega arith
masked false x m small e = omega arith

-- Of the 32 bits of a mode, the three permissions to write are cleared and the others are kept.
pub bit-clear_write_bits :
    (k mode : ℕ)
    → k < 32
    → bit k (clear_write_bits mode) ≡ (if is_write_bit k then 0 else bit k mode)
unfolding clear_write_bits
bit-clear_write_bits k mode lt =
    rw bit-bit_and
      (masked (is_write_bit k) (bit k mode) (bit k mask) (bit_small k mode) (bit-mask k lt))
