-- ===== src/Application/RiskLimits/Trade.antt =====
-- packages/application/src/risk-limits.ts, `evaluateTradeNotionalLimits`.
pub mod Allowed
use portfolio_rebalancer.Prelude.{
  ℤ, pos, ◌+ℤ◌, ◌*ℤ◌, ◌/ℤ◌, ltb_ℤ, leb_ℤ, sum_ℤ, Text, is_blank, Bool, true, false, ◌||◌, List, map,
  any, find, Option, none, some, if◌then◌else◌,
}
use portfolio_rebalancer.Domain.Allocation.{has_repeats}
use portfolio_rebalancer.Application.RiskLimits.{
  RiskLimitStatus, ready_status, blocked_status, is_ready,
}

pub data TradeLimitReasonCode : Type 0 where
  trade_limits_ok : TradeLimitReasonCode
  trade_limit_policy_invalid : TradeLimitReasonCode
  trade_limit_input_invalid : TradeLimitReasonCode
  single_order_limit_exceeded : TradeLimitReasonCode
  daily_gross_limit_exceeded : TradeLimitReasonCode
  daily_turnover_limit_exceeded : TradeLimitReasonCode

-- The Korean message of each decision is left out.
pub record TradeLimitDecision : Type 0 where
  pub status : RiskLimitStatus
  pub can_proceed : Bool
  pub reason_code : TradeLimitReasonCode
  pub subject_key : Option Text
  pub projected_daily_gross_minor : Option ℤ
  pub projected_turnover_basis_points_floor : Option ℤ

pub record PlannedTradeNotional : Type 0 where
  pub logical_order_id : Text
  pub gross_notional_minor : ℤ

pub record TradeLimitInput : Type 0 where
  pub baseline_portfolio_value_minor : ℤ
  pub trade_day_filled_gross_minor : ℤ
  pub reserved_pending_gross_minor : ℤ
  pub planned_orders : List PlannedTradeNotional
  pub max_single_order_minor : ℤ
  pub max_daily_gross_minor : ℤ
  pub max_daily_turnover_basis_points : ℤ

abbrev pub trade_decision :
    RiskLimitStatus → TradeLimitReasonCode → Option Text → Option ℤ → Option ℤ → TradeLimitDecision
trade_decision status reason subject gross turnover = record {
  status = status;
  can_proceed = is_ready status;
  reason_code = reason;
  subject_key = subject;
  projected_daily_gross_minor = gross;
  projected_turnover_basis_points_floor = turnover;
}

abbrev pub is_bad_trade_policy : TradeLimitInput → Bool
is_bad_trade_policy input =
    ltb_ℤ input.max_single_order_minor (pos 0)
    || ltb_ℤ input.max_daily_gross_minor input.max_single_order_minor
    || ltb_ℤ input.max_daily_turnover_basis_points (pos 0)
    || ltb_ℤ (pos 10000) input.max_daily_turnover_basis_points

abbrev pub is_negative_trade : PlannedTradeNotional → Bool
is_negative_trade order = ltb_ℤ order.gross_notional_minor (pos 0)

abbrev pub trade_ids : TradeLimitInput → List Text
trade_ids input = map (λ order. order.logical_order_id) input.planned_orders

abbrev pub is_bad_trade_input : TradeLimitInput → Bool
is_bad_trade_input input =
    leb_ℤ input.baseline_portfolio_value_minor (pos 0)
    || ltb_ℤ input.trade_day_filled_gross_minor (pos 0)
    || ltb_ℤ input.reserved_pending_gross_minor (pos 0)
    || any is_blank (trade_ids input)
    || has_repeats (trade_ids input)
    || any is_negative_trade input.planned_orders

abbrev pub is_oversized : ℤ → PlannedTradeNotional → Bool
is_oversized limit order = ltb_ℤ limit order.gross_notional_minor

abbrev pub projected_gross : TradeLimitInput → ℤ
projected_gross input =
    input.trade_day_filled_gross_minor
    +ℤ input.reserved_pending_gross_minor
    +ℤ sum_ℤ (λ order. order.gross_notional_minor) input.planned_orders

abbrev pub projected_turnover : TradeLimitInput → ℤ
projected_turnover input =
    projected_gross input *ℤ pos 10000 /ℤ input.baseline_portfolio_value_minor

-- The tests on a valid input, given the first order over the limit of one order.
unfoldable pub compare_trade_limits :
    TradeLimitInput → Option PlannedTradeNotional → TradeLimitDecision
compare_trade_limits input (some order) =
    trade_decision blocked_status single_order_limit_exceeded (some order.logical_order_id)
      (some (projected_gross input)) (some (projected_turnover input))
compare_trade_limits input none =
    let gross = projected_gross input in
    let turnover = projected_turnover input in
    if ltb_ℤ input.max_daily_gross_minor gross
    then trade_decision blocked_status daily_gross_limit_exceeded none (some gross) (some turnover)
    else if ltb_ℤ (input.max_daily_turnover_basis_points *ℤ input.baseline_portfolio_value_minor)
        (gross *ℤ pos 10000)
    then trade_decision blocked_status daily_turnover_limit_exceeded none (some gross)
        (some turnover)
    else trade_decision ready_status trade_limits_ok none (some gross) (some turnover)

unfoldable pub evaluate_trade_notional_limits : TradeLimitInput → TradeLimitDecision
unfolding compare_trade_limits
evaluate_trade_notional_limits input =
    if is_bad_trade_policy input
    then trade_decision blocked_status trade_limit_policy_invalid none none none
    else if is_bad_trade_input input
    then trade_decision blocked_status trade_limit_input_invalid none none none
    else compare_trade_limits input
        (find (is_oversized input.max_single_order_minor) input.planned_orders)
