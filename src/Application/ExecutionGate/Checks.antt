-- ===== src/Application/ExecutionGate/Checks.antt =====
-- packages/application/src/execution-risk-gate.ts: the checks of a plan in every mode.
use portfolio_rebalancer.Prelude.{
  ℤ, ltb_ℤ, Text, text_eq, big_int, Bool, true, false, ◌&&◌, List, [], ◌∷◌, map, find, Option, none,
  some, Result, ok, err, ◌>>=◌, if◌then◌else◌,
}
use portfolio_rebalancer.Application.OrderState.{
  OrderState, planned, submitting, pending, partial_filled, filled, canceled, rejected, unknown,
  unknown_blocked,
}
use portfolio_rebalancer.Application.RiskLimits.Trade.{
  TradeLimitInput, evaluate_trade_notional_limits,
}
use portfolio_rebalancer.Application.RiskLimits.Exposure.{
  ExposureLimitInput, evaluate_exposure_limits,
}
use portfolio_rebalancer.Application.ExecutionGate.{
  ExecutionMode, paper, live, ExecutionOperationalConfig, PlannedExecutionOrder,
  ExecutionPlanIdentity, CurrentExecutionIdentity, ExistingOrderSummary, CheckCode,
  plan_has_no_executable_orders, minimum_order_gross_ok, order_below_minimum_gross,
  plan_identity_current, plan_identity_stale, no_unresolved_orders, unresolved_order_exists,
  trade_limit, exposure_limit, CheckOutcome, passed_check, blocked_check, ExecutionRiskCheck,
  ExecutionRiskGateInput, GateError, not_an_integer,
}

-- `a === b` on modes.
abbrev pub same_mode : ExecutionMode → ExecutionMode → Bool
same_mode paper paper = true
same_mode live live = true
same_mode paper live = false
same_mode live paper = false

abbrev pub pass_or_block : Bool → CheckCode → CheckCode → Option Text → ExecutionRiskCheck
pass_or_block condition passed_code blocked_code subject =
    if condition
    then record { code = passed_code; outcome = passed_check; subject_key = subject }
    else record { code = blocked_code; outcome = blocked_check; subject_key = subject }

abbrev pub blocked : CheckCode → Option Text → ExecutionRiskCheck
blocked code subject = record { code = code; outcome = blocked_check; subject_key = subject }

-- `BigInt(text)`, which throws on a text that is no integer.
unfoldable pub to_big_int : Text → Result GateError ℤ
to_big_int s = elim (big_int s) [ none ↦ err (not_an_integer s) | some n ↦ ok n ]

-- `found?.logicalOrderId ?? null`
abbrev pub order_key : Option PlannedExecutionOrder → Option Text
order_key none = none
order_key (some order) = some order.trade.logical_order_id

-- `found === undefined`
abbrev pub is_absent {ℓ} : {A : Type ℓ} → Option A → Bool
is_absent none = true
is_absent (some x) = false

abbrev pub is_below : ℤ → PlannedExecutionOrder → Bool
is_below minimum order = ltb_ℤ order.trade.gross_notional_minor minimum

unfoldable pub evaluate_executable_order_set :
    List PlannedExecutionOrder → ExecutionOperationalConfig → Result GateError ExecutionRiskCheck
evaluate_executable_order_set [] config = ok (blocked plan_has_no_executable_orders none)
evaluate_executable_order_set (first ∷ others) config = do
  minimum ← to_big_int config.limits.minimum_order_gross_minor
  let below_minimum = find (is_below minimum) (first ∷ others)
  ok (
      pass_or_block (is_absent below_minimum) minimum_order_gross_ok order_below_minimum_gross
        (order_key below_minimum))

unfoldable pub evaluate_plan_identity :
    ExecutionPlanIdentity → CurrentExecutionIdentity → ExecutionRiskCheck
evaluate_plan_identity plan current =
    let matches =
      text_eq plan.snapshot_id current.snapshot_id
      && text_eq plan.snapshot_digest current.snapshot_digest
      && text_eq plan.target_config_version_id current.target_config_version_id
      && text_eq plan.target_config_content_hash current.target_config_content_hash in
    pass_or_block matches plan_identity_current plan_identity_stale (some plan.plan_id)

-- `UNRESOLVED_STATES.has(state)`
abbrev pub is_unresolved : OrderState → Bool
is_unresolved planned = true
is_unresolved submitting = true
is_unresolved pending = true
is_unresolved partial_filled = true
is_unresolved filled = false
is_unresolved canceled = false
is_unresolved rejected = false
is_unresolved unknown = true
is_unresolved unknown_blocked = true

-- `found?.logicalOrderId ?? null`
abbrev pub existing_key : Option ExistingOrderSummary → Option Text
existing_key none = none
existing_key (some order) = some order.logical_order_id

unfoldable pub evaluate_existing_orders : List ExistingOrderSummary → ExecutionRiskCheck
evaluate_existing_orders existing_orders =
    let unresolved = find (λ order. is_unresolved order.state) existing_orders in
    pass_or_block (is_absent unresolved) no_unresolved_orders unresolved_order_exists
      (existing_key unresolved)

-- `result.canProceed ? "PASSED" : "BLOCKED"`
abbrev pub outcome_of : Bool → CheckOutcome
outcome_of can_proceed = if can_proceed then passed_check else blocked_check

-- The input of the limits on trading, with two of the limits.
abbrev pub trade_input :
    ExecutionRiskGateInput → ExecutionOperationalConfig → ℤ → ℤ → TradeLimitInput
trade_input input config max_single max_daily = record {
  baseline_portfolio_value_minor = input.baseline_portfolio_value_minor;
  trade_day_filled_gross_minor = input.trade_day_filled_gross_minor;
  reserved_pending_gross_minor = input.reserved_pending_gross_minor;
  planned_orders = map (λ order. order.trade) input.plan.orders;
  max_single_order_minor = max_single;
  max_daily_gross_minor = max_daily;
  max_daily_turnover_basis_points = config.limits.max_daily_turnover_basis_points;
}

unfoldable pub evaluate_general_trade_limits :
    ExecutionRiskGateInput → ExecutionOperationalConfig → Result GateError ExecutionRiskCheck
evaluate_general_trade_limits input config = do
  max_single ← to_big_int config.limits.max_single_order_gross_minor
  max_daily ← to_big_int config.limits.max_daily_gross_minor
  let result = evaluate_trade_notional_limits (trade_input input config max_single max_daily)
  ok (record {
    code = trade_limit result.reason_code;
    outcome = outcome_of result.can_proceed;
    subject_key = result.subject_key;
  })

abbrev pub exposure_input : ExecutionRiskGateInput → ExecutionOperationalConfig → ExposureLimitInput
exposure_input input config = record {
  portfolio_value_minor = input.projected_exposure.portfolio_value_minor;
  instruments = input.projected_exposure.instruments;
  asset_classes = input.projected_exposure.asset_classes;
  risky_asset_value_minor = input.projected_exposure.risky_asset_value_minor;
  max_instrument_basis_points = config.limits.max_instrument_weight_basis_points;
  max_asset_class_basis_points = config.limits.max_asset_class_weight_basis_points;
  max_risky_asset_basis_points = config.limits.max_risky_weight_basis_points;
}

unfoldable pub evaluate_projected_exposure :
    ExecutionRiskGateInput → ExecutionOperationalConfig → ExecutionRiskCheck
evaluate_projected_exposure input config =
    let result = evaluate_exposure_limits (exposure_input input config) in
    record {
      code = exposure_limit result.reason_code;
      outcome = outcome_of result.can_proceed;
      subject_key = result.subject_key;
    }
