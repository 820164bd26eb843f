-- ===== src/Application/Commission/Covered.antt =====
-- A commission is never understated, and by less than one unit overstated.
use portfolio_rebalancer.Prelude.{
  ℕ, zero, suc, ok-injective, >>=-eq-ok, throw_if-ok, Text, ap, ◌^◌, ◌<◌, ℤ, pos, ◌+ℤ◌, ◌-ℤ◌, ◌*ℤ◌,
  ◌/ℤ◌, ◌≤ℤ◌, ◌<ℤ◌, ltb_ℤ, eq_ℤ, quotient_lem, zero-*ℤ, int_laws, Bool-cases, true, not, Option,
  none, some, List, [], ◌∷◌, length, ok, throw_if, arith, subst, ◌≡◌, sym, inl, inr,
}
use portfolio_rebalancer.Application.Commission.{
  CommissionRatePeriod, CommissionInput, CommissionEstimate, Rate, parse_non_negative_decimal,
  is_iso_date, applicable, only_period, or_invalid, notional_invalid, trade_date_invalid,
  fraction_of, or_empty, commission_of, estimate_commission,
}

-- The least number of units that is no less than a percentage of an amount.
abbrev pub IsRoundedUp : ℤ → Rate → ℤ → Type 0
IsRoundedUp notional rate commission =
    (notional *ℤ rate.numerator ≤ℤ commission *ℤ (rate.scale *ℤ pos 100))
    × (commission *ℤ (rate.scale *ℤ pos 100) <ℤ notional *ℤ rate.numerator +ℤ rate.scale *ℤ pos 100)

ceiling :
    (a d : ℤ)
    → pos 0 <ℤ a
    → pos 0 <ℤ d
    → (a ≤ℤ (a +ℤ d -ℤ pos 1) /ℤ d *ℤ d) × ((a +ℤ d -ℤ pos 1) /ℤ d *ℤ d <ℤ a +ℤ d)
ceiling a d p q =
    let sum = a +ℤ d -ℤ pos 1 in
    let sum_nonnegative : pos 0 ≤ℤ sum = omega int_laws in
    let (low, below, above) = quotient_lem sum d sum_nonnegative q in
    (omega int_laws, omega int_laws)

-- What one estimate is made of.
pub record IsEstimate (input : CommissionInput) (e : CommissionEstimate)
    (period : CommissionRatePeriod) (rate : Rate) : Type 0 where
  pub only : applicable input ≡ period ∷ []
  pub parsed : parse_non_negative_decimal period.commission_rate_percent ≡ some rate
  pub same_notional : e.notional_minor ≡ input.notional_minor
  pub same_rate : e.commission_rate_percent ≡ period.commission_rate_percent
  pub rounded_up : IsRoundedUp input.notional_minor rate e.commission_minor

only_period-ok :
    (periods : List CommissionRatePeriod) {period : CommissionRatePeriod}
    → only_period periods ≡ ok period
    → periods ≡ period ∷ []
only_period-ok [] h = cc
only_period-ok (p ∷ []) h = ap (λ q. q ∷ []) (ok-injective h)
only_period-ok (p ∷ q ∷ ps) h = cc

or_invalid-ok : (rate : Option Rate) {r : Rate} → or_invalid rate ≡ ok r → rate ≡ some r
or_invalid-ok none h = cc
or_invalid-ok (some r) h = ap some (ok-injective h)

-- The tests of the code, all passed.
pub estimate_cases :
    (input : CommissionInput) {e : CommissionEstimate}
    → estimate_commission input ≡ ok e
    → (pos 0 ≤ℤ input.notional_minor)
      × (is_iso_date input.trade_date ≡ true)
      × ((period : CommissionRatePeriod) × (rate : Rate) × (applicable input ≡ period ∷ [])
          × (parse_non_negative_decimal period.commission_rate_percent ≡ some rate)
          × (e.notional_minor ≡ input.notional_minor)
          × (e.commission_rate_percent ≡ period.commission_rate_percent)
          × (e.commission_minor ≡ commission_of input.notional_minor rate))
unfolding estimate_commission
estimate_cases input {e} h =
    let (u, first, rest) =
      >>=-eq-ok (throw_if (ltb_ℤ input.notional_minor (pos 0)) notional_invalid) _ h in
    let (v, second, more) =
      >>=-eq-ok (throw_if (not (is_iso_date input.trade_date)) trade_date_invalid) _ rest in
    let (period, third, last) = >>=-eq-ok (only_period (applicable input)) _ more in
    let (rate, fourth, result) =
      >>=-eq-ok (or_invalid (parse_non_negative_decimal period.commission_rate_percent)) _ last in
    let same = ok-injective result in
    (
      ground (arith, throw_if-ok _ notional_invalid first),
      ground (arith, throw_if-ok _ trade_date_invalid second),
      (
        period,
        rate,
        only_period-ok (applicable input) third,
        or_invalid-ok (parse_non_negative_decimal period.commission_rate_percent) fourth,
        ap (λ r. r.notional_minor) (sym same),
        ap (λ r. r.commission_rate_percent) (sym same),
        ap (λ r. r.commission_minor) (sym same),
      ),
    )

pow_pos : (n : ℕ) → 0 < 10 ^ n
pow_pos zero = omega arith
pow_pos (suc n) = omega (arith, pow_pos n)

parsed_scale :
    (value : Text) {rate : Rate}
    → parse_non_negative_decimal value ≡ some rate
    → (pos 0 ≤ℤ rate.numerator) × (pos 0 <ℤ rate.scale)
unfolding parse_non_negative_decimal
parsed_scale value h =
    let positive = pow_pos (length (or_empty (fraction_of value))) in ground arith

commission-IsRoundedUp :
    (notional : ℤ) (rate : Rate)
    → pos 0 ≤ℤ notional
    → pos 0 ≤ℤ rate.numerator
    → pos 0 <ℤ rate.scale
    → IsRoundedUp notional rate (commission_of notional rate)
unfolding commission_of
commission-IsRoundedUp notional rate n r p =
    let amount = notional *ℤ rate.numerator in
    let unit = rate.scale *ℤ pos 100 in
    let unit_pos : pos 0 <ℤ unit = unfold ◌*ℤ◌ in ground arith in
    let amount_nonneg : pos 0 ≤ℤ amount = unfold ◌*ℤ◌ in ground arith in
    elim (Bool-cases (eq_ℤ amount (pos 0))) [
      | inl zero_amount ↦
          let small : amount ≤ℤ pos 0 = ground arith in
          rw zero_amount (rw (zero-*ℤ unit) (small, omega int_laws))
      | inr some_amount ↦
          let positive : pos 0 <ℤ amount = ground arith in
          rw some_amount (ceiling amount unit positive unit_pos)
    ]

-- Whenever a commission is estimated, exactly one period of the schedule applies; its rate is the one
-- reported; and the commission is the least number of minor units that is no less than that percentage
-- of the amount.
pub commission_covers :
    (input : CommissionInput) {e : CommissionEstimate}
    → estimate_commission input ≡ ok e
    → (period : CommissionRatePeriod) × (rate : Rate) × IsEstimate input e period rate
commission_covers input {e} h =
    let (notional, dated, cases) = estimate_cases input h in
    let (period, rate, only, parsed, same_notional, same_rate, same_commission) = cases in
    let (numerator, scale) = parsed_scale period.commission_rate_percent parsed in
    (
      period,
      rate,
      record {
        only = only;
        parsed = parsed;
        same_notional = same_notional;
        same_rate = same_rate;
        rounded_up =
            subst (IsRoundedUp input.notional_minor rate) (sym same_commission)
              (commission-IsRoundedUp input.notional_minor rate notional numerator scale);
      },
    )
