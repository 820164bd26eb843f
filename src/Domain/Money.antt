-- ===== src/Domain/Money.antt =====
-- packages/domain/src/money.ts: amounts in minor units of their currency.
pub mod RoundTrip
use portfolio_rebalancer.Prelude.{
  ℤ, pos, ◌+ℤ◌, ltb_ℤ, Text, Bool, true, false, not, Result, ok, err, ◌>>=◌, ◌>>◌, throw_if,
}
use portfolio_rebalancer.Domain.Decimal.{
  DecimalError, decimal, to_scaled_integer, from_scaled_integer, different_currencies,
  negative_amount,
}

pub data Currency : Type 0 where
  krw usd : Currency

abbrev pub eq_currency : Currency → Currency → Bool
eq_currency krw krw = true
eq_currency krw usd = false
eq_currency usd krw = false
eq_currency usd usd = true

abbrev pub minor_digits : Currency → ℤ
minor_digits krw = pos 0
minor_digits usd = pos 2

pub record Money : Type 0 where
  pub currency : Currency
  pub minor : ℤ

unfoldable pub money : Currency → Text → Result DecimalError Money
money currency amount = do
  text ← decimal amount
  minor ← to_scaled_integer text (minor_digits currency)
  ok (record { currency = currency; minor = minor })

unfoldable pub non_negative_money : Currency → Text → Result DecimalError Money
non_negative_money currency amount = do
  value ← money currency amount
  throw_if (ltb_ℤ value.minor (pos 0)) negative_amount
  ok value

unfoldable pub assert_same_currency : Money → Money → Result DecimalError Unit
assert_same_currency left right =
    throw_if (not (eq_currency left.currency right.currency)) different_currencies

unfoldable pub add_money : Money → Money → Result DecimalError Money
add_money left right = do
  assert_same_currency left right
  ok (record { currency = left.currency; minor = left.minor +ℤ right.minor })

unfoldable pub format_money : Money → Result DecimalError Text
format_money value = from_scaled_integer value.minor (minor_digits value.currency)
