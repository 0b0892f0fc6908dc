-- ===== src/Base/Numbers.antt =====
-- `strconv.Atoi` and the decimal form of a number.
use Prim.Native.Nat.{ℕ, zero, suc, ◌+◌, ◌-◌, ◌*◌, ◌/◌, ◌%◌, ◌^◌}
use mathlib.Core.Bool.{Bool, true, false}
use mathlib.Core.List.{[], ◌∷◌}
use proton5g.Base.Tests.{ltb, leb, ◌==◌, if◌then◌else◌}
use proton5g.Base.Strings.{Text, within}
use proton5g.Base.Int.{ℤ, pos, neg_ℕ}

abbrev pub is_digit : ℕ → Bool
is_digit c = within b'0' b'9' c

-- What the scan of the digits finds. An overflow of 64 bits ends the scan at once.
pub data Scan : Type 0 where
  number : ℕ → Scan
  syntax_error range_error : Scan

unfoldable pub scan_digits : ℕ → Text → Scan
scan_digits acc [] = number acc
scan_digits acc (c ∷ s) =
    let acc' = acc * 10 + (c - b'0') in
    let rest = scan_digits acc' s in
    if is_digit c then (if ltb acc' (2 ^ 64) then rest else range_error) else syntax_error

-- The value and whether there is no error. With an error the value is 0, or the nearest `int`.
pub record Parsed : Type 0 where
  pub value : ℤ
  pub good : Bool

abbrev parsed : ℤ → Bool → Parsed
parsed v g = record { value = v; good = g }

signed : Bool → Scan → Parsed
signed neg syntax_error = parsed (pos 0) false
signed true range_error = parsed (neg_ℕ (2 ^ 63)) false
signed false range_error = parsed (pos (2 ^ 63 - 1)) false
signed true (number n) =
    if leb n (2 ^ 63) then parsed (neg_ℕ n) true else parsed (neg_ℕ (2 ^ 63)) false
signed false (number n) =
    if ltb n (2 ^ 63) then parsed (pos n) true else parsed (pos (2 ^ 63 - 1)) false

scan_unsigned : Text → Scan
unfolding scan_digits
scan_unsigned [] = syntax_error
scan_unsigned (c ∷ s) = scan_digits 0 (c ∷ s)

unfoldable pub atoi : Text → Parsed
unfolding signed scan_unsigned
atoi [] = parsed (pos 0) false
atoi (c ∷ s) =
    if c == b'-'
    then signed true (scan_unsigned s)
    else if c == b'+'
    then signed false (scan_unsigned s)
    else signed false (scan_unsigned (c ∷ s))

-- `%d` of a natural number; as many rounds as the number is enough
unfoldable pub digits_from : ℕ → ℕ → Text → Text
digits_from zero n out = out
digits_from (suc f) n out =
    let rest = digits_from f (n / 10) ((n % 10 + b'0') ∷ out) in
    if ltb n 10 then (n + b'0') ∷ out else rest

unfoldable pub itoa : ℕ → Text
unfolding digits_from
itoa n = digits_from (suc n) n []
