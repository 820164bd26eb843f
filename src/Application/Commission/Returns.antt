-- ===== src/Application/Commission/Returns.antt =====
-- When a commission is estimated.
use portfolio_rebalancer.Prelude.{
  ◌≤ℤ◌, pos, ltb_ℤ, true, false, succeeds, Result, ok, err, arith, refl, ◌≡◌, ◌↔◌,
}
use portfolio_rebalancer.Application.Commission.{
  CommissionRatePeriod, CommissionInput, estimate_commission,
}
use portfolio_rebalancer.Application.Commission.Calendar.{IsDate, IsDate-iff}
use portfolio_rebalancer.Application.Commission.Rates.{IsRateText, IsRateText-to, IsRateText-from}
use portfolio_rebalancer.Application.Commission.Periods.{IsOnly, IsOnly-to, IsOnly-from}
use portfolio_rebalancer.Application.Commission.Covered.{estimate_cases}

-- What lets a commission be estimated.
pub record IsEstimable (input : CommissionInput) (period : CommissionRatePeriod) : Type 0 where
  pub notional : pos 0 ≤ℤ input.notional_minor
  pub dated : IsDate input.trade_date
  pub only : IsOnly input period input.schedule.periods
  pub readable : IsRateText period.commission_rate_percent

returned : {E A : Type 0} (r : Result E A) → succeeds r ≡ true → (a : A) × (r ≡ ok a)
returned (ok a) h = (a, refl)
returned (err e) h = cc

-- A commission is estimated exactly when the amount is not negative; the trade date is the text of a day
-- of the Gregorian calendar from the year 1000 on; exactly one place of the schedule holds a period of
-- the market that begins on that date or before, or has no beginning, and ends on it or after, or has no
-- end, as texts are compared; and the rate of that period is a text of at most 30 characters, a whole
-- number with no needless zero in front, alone or with a point and digits behind it.
pub commission_returns_iff :
    (input : CommissionInput)
    → (succeeds (estimate_commission input) ≡ true)
      ↔ ((period : CommissionRatePeriod) × IsEstimable input period)
unfolding estimate_commission
commission_returns_iff input = (
  λ h.
      let (e, ok_e) = returned (estimate_commission input) h in
      let (notional, dated, cases) = estimate_cases input ok_e in
      let (period, rate, only, parsed, a, b, c) = cases in
      (
        period,
        record {
          notional = notional;
          dated = (IsDate-iff input.trade_date).0 dated;
          only = IsOnly-to input input.schedule.periods only;
          readable = IsRateText-to period.commission_rate_percent parsed;
        },
      ),
  λ (period, v).
      let notional = v.notional in
      let nonnegative : ltb_ℤ input.notional_minor (pos 0) ≡ false = ground arith in
      let dated = (IsDate-iff input.trade_date).1 v.dated in
      let only = IsOnly-from input period input.schedule.periods v.only in
      let (rate, parsed) = IsRateText-from period.commission_rate_percent v.readable in
      rw (nonnegative, dated, only, parsed) refl,
)
