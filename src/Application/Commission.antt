-- ===== src/Application/Commission.antt =====
-- packages/application/src/commission.ts: the commission of a trade. The schedule is that of
-- packages/broker/src/models.ts; dates are texts, as there, and the Korean messages are left out.
pub mod Covered
pub mod Calendar
pub mod Rates
pub mod Periods
pub mod Returns
mod Examples
use portfolio_rebalancer.Prelude.{
  is_leap, is_digit, is_whole, is_fraction, whole_of, fraction_of, or_empty, decimal_value, ℕ, suc,
  ◌+◌, ◌-◌, ◌*◌, ◌%◌, ◌^◌, ◌<◌, ltb, leb, ◌==◌, ℤ, pos, ◌+ℤ◌, ◌-ℤ◌, ◌*ℤ◌, ◌/ℤ◌, ltb_ℤ, eq_ℤ, Text,
  compare_text, is_lt, digit_value, Bool, true, false, not, ◌&&◌, ◌||◌, Option, none, some, List,
  [], ◌∷◌, ◌++◌, length, all, filter, Ordering, if◌then◌else◌, Result, ok, err, ◌>>=◌, ◌>>◌,
  throw_if,
}
use portfolio_rebalancer.Application.ExecutionGate.{MarketCountry, kr, us}

pub data CommissionEstimateIssue : Type 0 where
  notional_invalid : CommissionEstimateIssue
  trade_date_invalid : CommissionEstimateIssue
  commission_rate_missing : CommissionEstimateIssue
  commission_rate_ambiguous : CommissionEstimateIssue
  commission_rate_invalid : CommissionEstimateIssue

pub record CommissionRatePeriod : Type 0 where
  pub market_country : MarketCountry
  pub commission_rate_percent : Text
  pub start_date : Option Text
  pub end_date : Option Text

pub record CommissionRateSchedule : Type 0 where
  pub account_id : Text
  pub periods : List CommissionRatePeriod

pub record CommissionInput : Type 0 where
  pub schedule : CommissionRateSchedule
  pub market_country : MarketCountry
  pub trade_date : Text
  pub notional_minor : ℤ

-- The constants policyVersion and taxIncluded are left out.
pub record CommissionEstimate : Type 0 where
  pub market_country : MarketCountry
  pub trade_date : Text
  pub notional_minor : ℤ
  pub commission_rate_percent : Text
  pub commission_minor : ℤ

pub record Rate : Type 0 where
  pub numerator : ℤ
  pub scale : ℤ

unfoldable pub parse_non_negative_decimal : Text → Option Rate
parse_non_negative_decimal value =
    let whole = whole_of value in
    let fraction = or_empty (fraction_of value) in
    if not (is_whole whole && is_fraction (fraction_of value)) || ltb 30 (length value)
    then none
    else some (record {
      numerator = pos (decimal_value 0 (whole ++ fraction));
      scale = pos (10 ^ length fraction);
    })

-- The days of a month; 0 for a month that is none.
abbrev pub days_in : ℕ → ℕ → ℕ
days_in year month =
    if month == 2
    then if is_leap year then 29 else 28
    else if month == 4 || month == 6 || month == 9 || month == 11
    then 30
    else if leb 1 month && leb month 12
    then 31
    else 0

-- `Date.UTC` and its reading back change any day that the calendar does not have, and only such a day.
abbrev pub is_calendar_day : ℕ → ℕ → ℕ → Bool
is_calendar_day year month day = leb 1000 year && leb 1 day && leb day (days_in year month)

unfoldable pub is_iso_date : Text → Bool
is_iso_date (y1 ∷ y2 ∷ y3 ∷ y4 ∷ d1 ∷ m1 ∷ m2 ∷ d2 ∷ a1 ∷ a2 ∷ []) =
    all is_digit (y1 ∷ y2 ∷ y3 ∷ y4 ∷ m1 ∷ m2 ∷ a1 ∷ a2 ∷ [])
    && d1 == 45
    && d2 == 45
    && is_calendar_day (decimal_value 0 (y1 ∷ y2 ∷ y3 ∷ y4 ∷ [])) (decimal_value 0 (m1 ∷ m2 ∷ []))
        (decimal_value 0 (a1 ∷ a2 ∷ []))
is_iso_date _ = false

abbrev pub same_country : MarketCountry → MarketCountry → Bool
same_country kr kr = true
same_country us us = true
same_country kr us = false
same_country us kr = false

-- `left <= right` on texts.
abbrev pub is_at_most : Text → Text → Bool
is_at_most left right = not (is_lt (compare_text right left))

abbrev pub starts_by : Option Text → Text → Bool
starts_by none date = true
starts_by (some start) date = is_at_most start date

abbrev pub ends_after : Option Text → Text → Bool
ends_after none date = true
ends_after (some end) date = is_at_most date end

-- The predicate of the `filter`.
unfoldable pub is_applicable : CommissionInput → CommissionRatePeriod → Bool
is_applicable input period =
    same_country period.market_country input.market_country
    && starts_by period.start_date input.trade_date
    && ends_after period.end_date input.trade_date

abbrev pub applicable : CommissionInput → List CommissionRatePeriod
applicable input = filter (is_applicable input) input.schedule.periods

-- The one applicable period.
abbrev pub only_period :
    List CommissionRatePeriod → Result CommissionEstimateIssue CommissionRatePeriod
only_period [] = err commission_rate_missing
only_period (period ∷ []) = ok period
only_period (period ∷ other ∷ periods) = err commission_rate_ambiguous

abbrev pub or_invalid : Option Rate → Result CommissionEstimateIssue Rate
or_invalid none = err commission_rate_invalid
or_invalid (some rate) = ok rate

unfoldable pub commission_of : ℤ → Rate → ℤ
commission_of notional rate =
    let denominator = rate.scale *ℤ pos 100 in
    let numerator = notional *ℤ rate.numerator in
    if eq_ℤ numerator (pos 0) then pos 0 else (numerator +ℤ denominator -ℤ pos 1) /ℤ denominator

unfoldable pub estimate_commission :
    CommissionInput → Result CommissionEstimateIssue CommissionEstimate
estimate_commission input = do
  throw_if (ltb_ℤ input.notional_minor (pos 0)) notional_invalid
  throw_if (not (is_iso_date input.trade_date)) trade_date_invalid
  period ← only_period (applicable input)
  rate ← or_invalid (parse_non_negative_decimal period.commission_rate_percent)
  ok (record {
    market_country = input.market_country;
    trade_date = input.trade_date;
    notional_minor = input.notional_minor;
    commission_rate_percent = period.commission_rate_percent;
    commission_minor = commission_of input.notional_minor rate;
  })
