-- ===== src/Domain/Money/RoundTrip.antt =====
-- A printed amount reads back.
use portfolio_rebalancer.Prelude.{ℤ, ok, ◌>>=◌, arith, ◌≡◌, refl}
use portfolio_rebalancer.Domain.Decimal.RoundTrip.{readable}
use portfolio_rebalancer.Domain.Money.{Currency, krw, usd, Money, money, format_money}

abbrev amount : Currency → ℤ → Money
amount currency minor = record { currency = currency; minor = minor }

amount-reads :
    (c : Currency) (n : ℤ) → (format_money (amount c n) >>= (λ s. money c s)) ≡ ok (amount c n)
unfolding format_money money
amount-reads krw n =
    let r = readable n 0 (omega arith) in rw (r.printed_as, r.admitted, r.read) refl
amount-reads usd n =
    let r = readable n 2 (omega arith) in rw (r.printed_as, r.admitted, r.read) refl

-- A printed amount of a currency reads back as the same amount.
pub format_money-money :
    (value : Money) → (format_money value >>= (λ s. money value.currency s)) ≡ ok value
format_money-money value = amount-reads value.currency value.minor
