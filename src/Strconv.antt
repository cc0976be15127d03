-- ===== src/Strconv.antt =====
-- Go's `strconv.FormatInt` and `strconv.ParseInt` at base 10, as the plugin uses them for the
-- capacities that it keeps in annotations.
pub mod RoundTrip
use Prim.Native.Char.{Char, code}
use subprovisioner.Base.{
  ℕ, zero, suc, ◌+◌, ◌-◌, ◌*◌, ◌/◌, ◌%◌, String, Bool, true, false, ◌&&◌, Option, none, some, ltb,
  leb, nat_eq, if◌then◌else◌,
}
use subprovisioner.Base.Int.{ℤ, pos, negsuc, half_range, sub_ℕ}

digit : ℕ → Char
digit zero = "0"
digit (suc zero) = "1"
digit (suc (suc zero)) = "2"
digit (suc (suc (suc zero))) = "3"
digit (suc (suc (suc (suc zero)))) = "4"
digit (suc (suc (suc (suc (suc zero))))) = "5"
digit (suc (suc (suc (suc (suc (suc zero)))))) = "6"
digit (suc (suc (suc (suc (suc (suc (suc zero))))))) = "7"
digit (suc (suc (suc (suc (suc (suc (suc (suc zero)))))))) = "8"
digit _ = "9"

-- The digits of a number in front of a text. The first argument bounds their number.
emit : ℕ → ℕ → String → String
emit zero n out = out
emit (suc room) n out =
    let longer = String.◌∷◌ (digit (n % 10)) out in
    let more = emit room (n / 10) longer in if ltb n 10 then longer else more

-- An int64 has at most 19 digits.
unfoldable pub decimal : ℕ → String
unfolding emit digit
decimal n = emit 20 n ""

unfoldable pub format_int : ℤ → String
format_int (pos n) = decimal n
format_int (negsuc n) = String.◌∷◌ "-" (decimal (suc n))

scan : String → ℕ → Option ℕ
scan String.[] n = some n
scan (String.◌∷◌ c s) n =
    if leb 48 (code c) && leb (code c) 57 then scan s (n * 10 + (code c - 48)) else none

-- At least one digit.
scan_digits : String → Option ℕ
scan_digits String.[] = none
scan_digits (String.◌∷◌ c s) = scan (String.◌∷◌ c s) 0

-- The two range checks: below 2 ^ 63, or up to 2 ^ 63 behind a minus sign.
signed : Bool → Option ℕ → Option ℤ
signed negative none = none
signed false (some n) = if leb half_range n then none else some (pos n)
signed true (some n) = if ltb half_range n then none else some (sub_ℕ 0 n)

-- `none` stands for the error, which the callers replace by one of their own.
unfoldable pub parse_int : String → Option ℤ
unfolding scan scan_digits signed
parse_int String.[] = none
parse_int (String.◌∷◌ c s) =
    if nat_eq (code c) 45
    then signed true (scan_digits s)
    else if nat_eq (code c) 43
    then signed false (scan_digits s)
    else signed false (scan_digits (String.◌∷◌ c s))
