-- ===== src/Application/Commission/Examples.antt =====
-- The commission of 0.015 percent of 123456 in the second of two periods.
use portfolio_rebalancer.Prelude.{
  pos, ◌+ℤ◌, ◌-ℤ◌, ◌*ℤ◌, ◌/ℤ◌, text, compare_text, some, none, [], ◌∷◌, succeeds, true, false, ok,
  ◌≡◌, refl, ◌↔◌,
}
use portfolio_rebalancer.Application.ExecutionGate.{kr}
use portfolio_rebalancer.Application.Commission.{
  CommissionRatePeriod, CommissionInput, CommissionEstimate, Rate, parse_non_negative_decimal,
  is_iso_date, is_applicable, commission_of, estimate_commission,
}
use portfolio_rebalancer.Application.Commission.Covered.{IsEstimate, commission_covers}
use portfolio_rebalancer.Application.Commission.Returns.{IsEstimable, commission_returns_iff}

abbrev trade : CommissionInput
trade = record {
  schedule = record {
    account_id = text "account-1";
    periods =
        record {
          market_country = kr;
          commission_rate_percent = text "0.14";
          start_date = none;
          end_date = some (text "2025-12-31");
        }
        ∷ record {
          market_country = kr;
          commission_rate_percent = text "0.015";
          start_date = some (text "2026-01-01");
          end_date = none;
        }
        ∷ [];
  };
  market_country = kr;
  trade_date = text "2026-02-28";
  notional_minor = pos 123456;
}

abbrev estimate : CommissionEstimate
estimate = record {
  market_country = kr;
  trade_date = text "2026-02-28";
  notional_minor = pos 123456;
  commission_rate_percent = text "0.015";
  commission_minor = pos 19;
}

computed : estimate_commission trade ≡ ok estimate
unfolding estimate_commission is_iso_date is_applicable parse_non_negative_decimal commission_of
    compare_text ◌+ℤ◌ ◌-ℤ◌ ◌*ℤ◌ ◌/ℤ◌
computed = refl

-- The year 2026 is no leap year.
no_leap_day : is_iso_date (text "2026-02-29") ≡ false
unfolding is_iso_date
no_leap_day = refl

commission_covers_example :
    (period : CommissionRatePeriod) × (rate : Rate) × IsEstimate trade estimate period rate
commission_covers_example = commission_covers trade computed

commission_returns_iff_example :
    (succeeds (estimate_commission trade) ≡ true)
    ↔ ((period : CommissionRatePeriod) × IsEstimable trade period)
commission_returns_iff_example = commission_returns_iff trade
