-- ===== src/Strconv/RoundTrip.antt =====
-- What the printed form of an int64 reads back as.
use Prim.Native.Nat.{◌^◌}
use Prim.Native.Char.{code}
use native.Mathlib.Nat.{pow-suc}
use subprovisioner.Base.{
  ℕ, zero, suc, ◌+◌, ◌*◌, ◌/◌, ◌%◌, ◌≤◌, ◌<◌, String, ◌≡◌, refl, some, arith, ltb, Bool-cases,
  false, true, inl, inr,
}
use subprovisioner.Base.Int.{ℤ, pos, negsuc, half_range, IsInt64}
use subprovisioner.Strconv.{digit, emit, scan, scan_digits, signed, decimal, format_int, parse_int}

code-digit : (d : ℕ) → d < 10 → code (digit d) ≡ 48 + d
unfolding digit
code-digit zero h = refl
code-digit (suc zero) h = refl
code-digit (suc (suc zero)) h = refl
code-digit (suc (suc (suc zero))) h = refl
code-digit (suc (suc (suc (suc zero)))) h = refl
code-digit (suc (suc (suc (suc (suc zero))))) h = refl
code-digit (suc (suc (suc (suc (suc (suc zero)))))) h = refl
code-digit (suc (suc (suc (suc (suc (suc (suc zero))))))) h = refl
code-digit (suc (suc (suc (suc (suc (suc (suc (suc zero)))))))) h = refl
code-digit (suc (suc (suc (suc (suc (suc (suc (suc (suc d))))))))) h =
    ground (arith, last d (omega arith))
  where
    last : (d : ℕ) → d < 1 → d ≡ 0
    last d k = omega arith

scan-digit :
    (d : ℕ) (out : String) (n : ℕ)
    → d < 10
    → scan (String.◌∷◌ (digit d) out) n ≡ scan out (n * 10 + d)
unfolding scan
scan-digit d out n h = ground (arith, code-digit d h)

-- Reading what `emit` wrote in front of a text is reading the text behind the number.
scan-emit : (room n : ℕ) (out : String) → n < 10 ^ room → scan (emit room n out) 0 ≡ scan out n
unfolding emit
scan-emit zero n out h = rw (below_one n h)
  where
    below_one : (m : ℕ) → m < 1 → m ≡ 0
    below_one m k = omega arith
scan-emit (suc room) n out h = ground (
  arith,
  pow-suc 10 room,
  scan-digit (n % 10) out (n / 10) (omega arith),
  scan-digit (n % 10) out 0 (omega arith),
  scan-emit room (n / 10) (String.◌∷◌ (digit (n % 10)) out),
)

-- A text that begins with a digit.
abbrev Numeral : String → Type 0
Numeral s = (d : ℕ) × (rest : String) × (d < 10) × (s ≡ String.◌∷◌ (digit d) rest)

emit-Numeral : (room n : ℕ) (out : String) → Numeral out → Numeral (emit room n out)
unfolding emit
emit-Numeral zero n out h = h
emit-Numeral (suc room) n out h = elim (Bool-cases (ltb n 10)) [
  | inl e ↦ rw e (n % 10, out, omega arith, refl)
  | inr e ↦ rw e (emit-Numeral room (n / 10) _ (n % 10, out, omega arith, refl))
]

emit_first : (room n : ℕ) → Numeral (emit (suc room) n "")
unfolding emit
emit_first room n = elim (Bool-cases (ltb n 10)) [
  | inl e ↦ rw e (n % 10, "", omega arith, refl)
  | inr e ↦ rw e (emit-Numeral room (n / 10) _ (n % 10, "", omega arith, refl))
]

-- On a text that begins with a digit the parser sees no sign.
parse_int-Numeral : (s : String) → Numeral s → parse_int s ≡ signed false (scan s 0)
unfolding parse_int
parse_int-Numeral s (d, rest, h, e) = rw e (ground (arith, code-digit d h))

scan_digits-Numeral : (s : String) → Numeral s → scan_digits s ≡ scan s 0
unfolding scan_digits
scan_digits-Numeral s (d, rest, h, e) = rw e

room_for_int64 : (n : ℕ) → n ≤ half_range → n < 10 ^ 20
room_for_int64 n h = omega arith

decimal-Numeral : (n : ℕ) → Numeral (decimal n)
unfolding decimal
decimal-Numeral n = emit_first 19 n

scan-decimal : (n : ℕ) → n ≤ half_range → scan (decimal n) 0 ≡ some n
unfolding scan decimal
scan-decimal n h = scan-emit 20 n "" (room_for_int64 n h)

parse_int_minus : (s : String) → parse_int (String.◌∷◌ "-" s) ≡ signed true (scan_digits s)
unfolding parse_int
parse_int_minus s = refl

-- Every int64 that is printed is read back as itself.
pub parse_int-format_int : (a : ℤ) → IsInt64 a → parse_int (format_int a) ≡ some a
unfolding format_int signed
parse_int-format_int (pos n) h =
    rw (parse_int-Numeral _ (decimal-Numeral n), scan-decimal n (omega arith)) (ground arith)
parse_int-format_int (negsuc n) h =
    rw
      (
        parse_int_minus,
        scan_digits-Numeral _ (decimal-Numeral (suc n)),
        scan-decimal (suc n) (omega arith),
      )
      (ground arith)
