-- ===== src/Application/PriceMovement.antt =====
-- packages/application/src/price-movement.ts: whether a price has moved too far since it was last
-- observed. `Date.parse` is an argument, since what it reads besides its own format is the host's
-- choice: no number stands for NaN. The messages and actions are left out. Numerators, scales and
-- changes are natural numbers: none of these bigints is negative.
pub mod Exact
pub mod Ready
mod Examples
use portfolio_rebalancer.Prelude.{
  ℕ, ◌+◌, ◌-◌, ◌*◌, ◌/◌, ◌^◌, ltb, leb, ◌==◌, ℤ, pos, ◌*ℤ◌, ltb_ℤ, leb_ℤ, Text, text_eq, is_whole,
  is_fraction, whole_of, fraction_of, or_empty, decimal_value, length, Bool, true, false, not, ◌&&◌,
  ◌||◌, Option, none, some, ◌++◌, if◌then◌else◌, Result, ok, err, ◌>>=◌, ◌>>◌, throw_if,
}
use portfolio_rebalancer.Broker.{PriceQuote}
use portfolio_rebalancer.Domain.Money.{eq_currency}
use portfolio_rebalancer.Application.Commission.{same_country}

pub data PriceMovementStatus : Type 0 where
  ready blocked unknown : PriceMovementStatus

pub data PriceMovementReasonCode : Type 0 where
  price_movement_acceptable price_movement_policy_invalid : PriceMovementReasonCode
  price_movement_instrument_mismatch price_movement_currency_mismatch : PriceMovementReasonCode
  price_movement_value_invalid price_movement_time_unknown : PriceMovementReasonCode
  price_movement_time_invalid price_movement_time_order_invalid : PriceMovementReasonCode
  price_movement_limit_exceeded : PriceMovementReasonCode

pub record PriceMovementDecision : Type 0 where
  pub status : PriceMovementStatus
  pub can_proceed : Bool
  pub reason_code : PriceMovementReasonCode
  pub change_basis_points_floor : Option ℤ

pub record PriceMovementInput : Type 0 where
  pub previous : PriceQuote
  pub current : PriceQuote
  pub max_absolute_change_basis_points : ℤ

pub record Price : Type 0 where
  pub numerator : ℕ
  pub scale : ℕ

abbrev pub is_ready : PriceMovementStatus → Bool
is_ready ready = true
is_ready blocked = false
is_ready unknown = false

unfoldable pub decision :
    PriceMovementStatus → PriceMovementReasonCode → Option ℤ → PriceMovementDecision
decision status reason change = record {
  status = status;
  can_proceed = is_ready status;
  reason_code = reason;
  change_basis_points_floor = change;
}

unfoldable pub parse_positive_decimal : Text → Option Price
parse_positive_decimal value =
    let fraction = or_empty (fraction_of value) in
    let numerator = decimal_value 0 (whole_of value ++ fraction) in
    if not (is_whole (whole_of value) && is_fraction (fraction_of value)) || ltb 30 (length value)
    then none
    else if leb numerator 0
    then none
    else some (record { numerator = numerator; scale = 10 ^ length fraction })

-- A price in units of a scale that is no smaller than its own.
abbrev pub scaled : ℕ → Price → ℕ
scaled scale price = price.numerator * (scale / price.scale)

abbrev pub larger : ℕ → ℕ → ℕ
larger a b = if ltb b a then a else b

-- `absoluteChange`
abbrev pub distance : ℕ → ℕ → ℕ
distance a b = if leb b a then a - b else b - a

-- The end of the evaluation, for two prices.
unfoldable pub compare_prices : ℤ → Price → Price → PriceMovementDecision
compare_prices limit previous current =
    let scale = larger previous.scale current.scale in
    let change = distance (scaled scale current) (scaled scale previous) * 10000 in
    let floor = some (pos (change / scaled scale previous)) in
    if ltb_ℤ (limit *ℤ pos (scaled scale previous)) (pos change)
    then decision blocked price_movement_limit_exceeded floor
    else decision ready price_movement_acceptable floor

-- A decision without a change, as the early returns give it.
pub record Refusal : Type 0 where
  pub status : PriceMovementStatus
  pub reason : PriceMovementReasonCode

abbrev pub refusal : PriceMovementStatus → PriceMovementReasonCode → Refusal
refusal status reason = record { status = status; reason = reason }

abbrev pub required : {A : Type 0} → Refusal → Option A → Result Refusal A
required r none = err r
required r (some a) = ok a

abbrev pub decided : Result Refusal PriceMovementDecision → PriceMovementDecision
decided (err r) = decision r.status r.reason none
decided (ok d) = d

-- The steps up to the comparison of the prices.
unfoldable pub evaluation :
    (Text → Option ℤ) → PriceMovementInput → Result Refusal PriceMovementDecision
evaluation date_parse input = do
  throw_if
      (ltb_ℤ input.max_absolute_change_basis_points (pos 0)
        || ltb_ℤ (pos 10000) input.max_absolute_change_basis_points)
      (refusal blocked price_movement_policy_invalid)
  throw_if
      (not (same_country input.previous.market_country input.current.market_country)
        || not (text_eq input.previous.symbol input.current.symbol))
      (refusal blocked price_movement_instrument_mismatch)
  throw_if (not (eq_currency input.previous.currency input.current.currency))
      (refusal blocked price_movement_currency_mismatch)
  previous ←
      required (refusal unknown price_movement_value_invalid)
        (parse_positive_decimal input.previous.price)
  current ←
      required (refusal unknown price_movement_value_invalid)
        (parse_positive_decimal input.current.price)
  previous_at ← required (refusal unknown price_movement_time_unknown) input.previous.observed_at
  current_at ← required (refusal unknown price_movement_time_unknown) input.current.observed_at
  previous_time ← required (refusal unknown price_movement_time_invalid) (date_parse previous_at)
  current_time ← required (refusal unknown price_movement_time_invalid) (date_parse current_at)
  throw_if (leb_ℤ current_time previous_time) (refusal blocked price_movement_time_order_invalid)
  ok (compare_prices input.max_absolute_change_basis_points previous current)

unfoldable pub evaluate_price_movement :
    (Text → Option ℤ) → PriceMovementInput → PriceMovementDecision
evaluate_price_movement date_parse input = decided (evaluation date_parse input)
