-- ===== src/Domain/Decimal/Examples.antt =====
-- Prices and quantities as decimal texts.
use portfolio_rebalancer.Prelude.{
  pos, negsuc, ◌-ℤ◌, text, to_text, digits_of, big_int, digits_from, ok, err, ◌>>=◌, ◌≡◌, refl,
  arith,
}
use portfolio_rebalancer.Domain.Decimal.{
  decimal, to_scaled_integer, from_scaled_integer, too_precise,
}
use portfolio_rebalancer.Domain.Decimal.RoundTrip.{from_scaled_integer-to_scaled_integer}

price_now : to_scaled_integer (text "-12.5") (pos 2) ≡ ok (negsuc 1249)
unfolding to_scaled_integer big_int digits_from ◌-ℤ◌
price_now = refl

excess_now : to_scaled_integer (text "0.125") (pos 2) ≡ err (too_precise (text "0.125"))
unfolding to_scaled_integer
excess_now = refl

print_now : from_scaled_integer (negsuc 4) (pos 2) ≡ ok (text "-0.05")
unfolding from_scaled_integer decimal to_text digits_of
print_now = refl

from_scaled_integer-to_scaled_integer_example :
    (from_scaled_integer (negsuc 1249) (pos 2)
      >>= (λ s. decimal s >>= (λ t. to_scaled_integer t (pos 2))))
    ≡ ok (negsuc 1249)
from_scaled_integer-to_scaled_integer_example =
    from_scaled_integer-to_scaled_integer (negsuc 1249) 2 (omega arith)
