-- ===== src/Domain/Decimal.antt =====
-- packages/domain/src/decimal.ts: decimal texts and the integers that they stand for at a number of
-- fraction digits. A number of fraction digits is an integer here.
pub mod RoundTrip
mod Examples
use portfolio_rebalancer.Prelude.{
  ℕ, ◌-◌, ◌+◌, ◌^◌, ltb, leb, ◌==◌, ℤ, pos, negsuc, pos_part, ◌-ℤ◌, ltb_ℤ, leb_ℤ, Text, big_int,
  is_digit, is_whole, is_fraction, whole_of, fraction_of, or_empty, to_text, zeros, pad_start, Bool,
  true, false, not, ◌&&◌, ◌||◌, Option, none, some, [], ◌∷◌, ◌++◌, length, any, take, drop,
  if◌then◌else◌, Result, ok, err, ◌>>=◌, ◌>>◌, throw_if,
}

pub data DecimalError : Type 0 where
  not_decimal too_precise not_integral : Text → DecimalError
  bad_fraction_digits : DecimalError
  negative_amount negative_quantity different_currencies fractional_quantity : DecimalError

abbrev pub starts_minus : Text → Bool
starts_minus [] = false
starts_minus (c ∷ s) = c == 45

-- `value.slice(1)` of a text that starts with a minus, and the text itself otherwise.
abbrev pub unsigned_of : Text → Text
unsigned_of [] = []
unsigned_of (c ∷ s) = if c == 45 then s else c ∷ s

-- `DECIMAL_PATTERN.test(value)`
abbrev pub is_decimal : Text → Bool
is_decimal value =
    is_whole (whole_of (unsigned_of value)) && is_fraction (fraction_of (unsigned_of value))

unfoldable pub decimal : Text → Result DecimalError Text
decimal value = do throw_if (not (is_decimal value)) (not_decimal value); ok value

-- `!Number.isSafeInteger(fractionDigits) || fractionDigits < 0`
abbrev pub is_bad_digits : ℤ → Bool
is_bad_digits digits = ltb_ℤ (pos (2 ^ 53 - 1)) digits || ltb_ℤ digits (pos 0)

-- The text between the first two points of `value.split(".")`.
abbrev pub second_part : Option Text → Text
second_part none = []
second_part (some s) = whole_of s

-- `s.padEnd(width, "0")`
abbrev pub pad_end : ℕ → Text → Text
pad_end width s = s ++ zeros (width - length s) []

-- `/[1-9]/`
abbrev pub is_nonzero_digit : ℕ → Bool
is_nonzero_digit c = leb 49 c && leb c 57

-- `-n`
abbrev pub negated : Bool → ℤ → ℤ
negated negative n = if negative then pos 0 -ℤ n else n

-- `text || "0"`
abbrev pub or_zero : Text → Text
or_zero [] = 48 ∷ []
or_zero (c ∷ s) = c ∷ s

-- `BigInt(text)`
abbrev pub integral : Text → Option ℤ → Result DecimalError ℤ
integral s none = err (not_integral s)
integral s (some n) = ok n

unfoldable pub to_scaled_integer : Text → ℤ → Result DecimalError ℤ
to_scaled_integer value fraction_digits = do
  throw_if (is_bad_digits fraction_digits) bad_fraction_digits
  let digits = pos_part fraction_digits
  let whole = whole_of (unsigned_of value)
  let fraction = second_part (fraction_of (unsigned_of value))
  throw_if (any is_nonzero_digit (drop digits fraction)) (too_precise value)
  let padded = pad_end digits (take digits fraction)
  scaled ← integral (or_zero (whole ++ padded)) (big_int (or_zero (whole ++ padded)))
  ok (negated (starts_minus value) scaled)

-- The sign of a value, before its digits.
abbrev pub signed : ℤ → Text → Text
signed value s = if ltb_ℤ value (pos 0) then 45 ∷ s else s

-- `negative ? -value : value`
abbrev pub magnitude : ℤ → ℕ
magnitude (pos n) = n
magnitude (negsuc n) = n + 1

-- The printed digits, with their point `count` places from the end.
abbrev pub pointed : ℕ → Text → Text
pointed count digits =
    if count == 0
    then digits
    else take (length digits - count) digits ++ 46 ∷ drop (length digits - count) digits

unfoldable pub from_scaled_integer : ℤ → ℤ → Result DecimalError Text
unfolding decimal
from_scaled_integer value fraction_digits = do
  throw_if (is_bad_digits fraction_digits) bad_fraction_digits
  let count = pos_part fraction_digits
  let digits = pad_start (count + 1) (to_text (magnitude value))
  decimal (signed value (pointed count digits))
