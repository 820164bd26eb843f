-- ===== src/Domain/Quantity.antt =====
-- packages/domain/src/quantity.ts: quantities as atoms at a number of fraction digits.
pub mod RoundTrip
use portfolio_rebalancer.Prelude.{
  ℤ, pos, ltb_ℤ, eq_ℤ, Text, Bool, true, false, not, Result, ok, err, ◌>>=◌, ◌>>◌, throw_if,
}
use portfolio_rebalancer.Domain.Decimal.{
  DecimalError, decimal, is_bad_digits, to_scaled_integer, from_scaled_integer, bad_fraction_digits,
  negative_quantity, fractional_quantity,
}

pub record Quantity : Type 0 where
  pub atoms : ℤ
  pub fraction_digits : ℤ

unfoldable pub quantity : Text → ℤ → Result DecimalError Quantity
quantity value fraction_digits = do
  text ← decimal value
  atoms ← to_scaled_integer text fraction_digits
  throw_if (ltb_ℤ atoms (pos 0)) negative_quantity
  ok (record { atoms = atoms; fraction_digits = fraction_digits })

unfoldable pub integer_quantity : Text → Result DecimalError Quantity
integer_quantity value = quantity value (pos 0)

unfoldable pub validate_fraction_digits : ℤ → Result DecimalError Unit
validate_fraction_digits fraction_digits =
    throw_if (is_bad_digits fraction_digits) bad_fraction_digits

unfoldable pub format_quantity : Quantity → Result DecimalError Text
format_quantity value = do
  validate_fraction_digits value.fraction_digits
  throw_if (ltb_ℤ value.atoms (pos 0)) negative_quantity
  from_scaled_integer value.atoms value.fraction_digits

unfoldable pub assert_integer_quantity : Quantity → Result DecimalError Unit
assert_integer_quantity value = do
  validate_fraction_digits value.fraction_digits
  throw_if (not (eq_ℤ value.fraction_digits (pos 0))) fractional_quantity
