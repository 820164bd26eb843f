-- ===== src/Application/RiskLimits/Trade/Allowed.antt =====
-- When new orders are within the limits on trading.
use portfolio_rebalancer.Prelude.{
  ℤ, pos, ◌+ℤ◌, sum_ℤ, ◌*ℤ◌, ◌≤ℤ◌, ◌<ℤ◌, is_blank, Distinct, true, false, List, any, find, All,
  any_iff, find_iff, All-map, All-zip, none, arith, ◌≡◌, ◌↔◌,
}
use portfolio_rebalancer.Domain.Allocation.{has_repeats}
use portfolio_rebalancer.Domain.Allocation.Valid.{not-has_repeats_iff}
use portfolio_rebalancer.Application.RiskLimits.Trade.{
  TradeLimitInput, PlannedTradeNotional, is_bad_trade_policy, is_negative_trade, trade_ids,
  is_bad_trade_input, is_oversized, projected_gross, compare_trade_limits,
  evaluate_trade_notional_limits,
}

-- What the day's trades come to with the new orders: filled, reserved and planned.
abbrev pub day_gross : TradeLimitInput → ℤ
day_gross input =
    input.trade_day_filled_gross_minor
    +ℤ input.reserved_pending_gross_minor
    +ℤ sum_ℤ (λ order. order.gross_notional_minor) input.planned_orders

-- Orders that may be placed under the limits.
pub record IsWithinTradeLimits (input : TradeLimitInput) : Type 0 where
  pub limits :
      (pos 0 ≤ℤ input.max_single_order_minor)
      × (input.max_single_order_minor ≤ℤ input.max_daily_gross_minor)
      × (pos 0 ≤ℤ input.max_daily_turnover_basis_points)
      × (input.max_daily_turnover_basis_points ≤ℤ pos 10000)
  pub baseline : pos 0 <ℤ input.baseline_portfolio_value_minor
  pub filled : pos 0 ≤ℤ input.trade_day_filled_gross_minor
  pub reserved : pos 0 ≤ℤ input.reserved_pending_gross_minor
  pub named : any is_blank (trade_ids input) ≡ false
  pub distinct : Distinct (trade_ids input)
  pub sized :
      All
        (λ order.
          (pos 0 ≤ℤ order.gross_notional_minor)
          × (order.gross_notional_minor ≤ℤ input.max_single_order_minor))
        input.planned_orders
  pub daily : day_gross input ≤ℤ input.max_daily_gross_minor
  pub turnover :
      day_gross input *ℤ pos 10000
      ≤ℤ input.max_daily_turnover_basis_points *ℤ input.baseline_portfolio_value_minor

-- The tests of the code, all passed.
passed_iff :
    (input : TradeLimitInput)
    → ((evaluate_trade_notional_limits input).can_proceed ≡ true) ↔ (
        (is_bad_trade_policy input ≡ false)
        × (is_bad_trade_input input ≡ false)
        × (find (is_oversized input.max_single_order_minor) input.planned_orders ≡ none)
        × (projected_gross input ≤ℤ input.max_daily_gross_minor)
        × (projected_gross input *ℤ pos 10000
            ≤ℤ input.max_daily_turnover_basis_points *ℤ input.baseline_portfolio_value_minor))
unfolding evaluate_trade_notional_limits compare_trade_limits
passed_iff input = ground arith

valid_iff :
    (input : TradeLimitInput)
    → (is_bad_trade_input input ≡ false) ↔ (
        (pos 0 <ℤ input.baseline_portfolio_value_minor)
        × (pos 0 ≤ℤ input.trade_day_filled_gross_minor)
        × (pos 0 ≤ℤ input.reserved_pending_gross_minor)
        × (any is_blank (trade_ids input) ≡ false)
        × (has_repeats (trade_ids input) ≡ false)
        × (any is_negative_trade input.planned_orders ≡ false))
valid_iff input = ground arith

sized_iff :
    (limit : ℤ) (orders : List PlannedTradeNotional)
    → ((any is_negative_trade orders ≡ false) × (find (is_oversized limit) orders ≡ none))
      ↔ All
          (λ order. (pos 0 ≤ℤ order.gross_notional_minor) × (order.gross_notional_minor ≤ℤ limit))
          orders
sized_iff limit orders = (
  λ (positive, small).
      All-zip (λ order a b. (ground (arith, a), ground (arith, b))) orders
        ((any_iff is_negative_trade orders).0 positive)
        ((find_iff (is_oversized limit) orders).0 small),
  λ sized. (
    (any_iff is_negative_trade orders).1 (All-map (λ order h. ground (arith, h)) orders sized),
    (find_iff (is_oversized limit) orders).1 (All-map (λ order h. ground (arith, h)) orders sized),
  ),
)

-- New orders may proceed exactly when the policy is a policy; the portfolio has a value and no amount
-- is negative; the orders have different names that are not blank; no order is above the limit of one
-- order; and filled, reserved and new orders together are within the limit of the day and, by cross
-- products, within the turnover of the portfolio's value.
pub trade_limits_iff :
    (input : TradeLimitInput)
    → ((evaluate_trade_notional_limits input).can_proceed ≡ true) ↔ IsWithinTradeLimits input
trade_limits_iff input = (
  λ h.
      let (policy, valid, small, daily, turnover) = (passed_iff input).0 h in
      let (baseline, filled, reserved, named, repeats, positive) = (valid_iff input).0 valid in
      record {
        limits = ground arith;
        baseline = baseline;
        filled = filled;
        reserved = reserved;
        named = named;
        distinct = (not-has_repeats_iff (trade_ids input)).0 repeats;
        sized = (sized_iff input.max_single_order_minor input.planned_orders).0 (positive, small);
        daily = daily;
        turnover = turnover;
      },
  λ v.
      let (positive, small) =
        (sized_iff input.max_single_order_minor input.planned_orders).1 v.sized in
      let repeats = (not-has_repeats_iff (trade_ids input)).1 v.distinct in
      let limits = v.limits in
      (passed_iff input).1 (
        ground arith,
        (valid_iff input).1 (v.baseline, v.filled, v.reserved, v.named, repeats, positive),
        small,
        v.daily,
        v.turnover,
      ),
)
