-- ===== src/Application/ExecutionGate/Live.antt =====
-- packages/application/src/execution-risk-gate.ts: the checks of a plan in the mode LIVE.
use portfolio_rebalancer.Prelude.{
  ℕ, ◌+◌, ℤ, pos, ◌+ℤ◌, ◌*ℤ◌, ltb_ℤ, leb_ℤ, sum_ℤ, Text, text_eq, is_blank, contains, Bool, true,
  false, not, ◌&&◌, ◌||◌, List, map, all, length, find, leb, ◌==◌, Option, none, some, Result, ok,
  ◌>>=◌, if◌then◌else◌,
}
use portfolio_rebalancer.Application.RiskLimits.Trade.{
  TradeLimitDecision, evaluate_trade_notional_limits,
}
use portfolio_rebalancer.Application.ExecutionGate.{
  ExecutionOperationalConfig, MarketCountry, kr, us, OrderType, limit, market, TimeInForce, day,
  cls, PlannedExecutionOrder, ManualLiveApprovalEvidence, CheckCode, live_account_allowlisted,
  live_account_not_allowlisted, live_order_shape_allowed, live_order_shape_blocked,
  live_trade_limits_ok, live_trade_limit, tiny_live_gross_limit_ok, tiny_live_gross_limit_exceeded,
  live_manual_approval_missing, live_manual_approval_valid, live_manual_approval_invalid,
  ExecutionRiskCheck, ExecutionRiskGateInput, GateError,
}
use portfolio_rebalancer.Application.ExecutionGate.Checks.{
  pass_or_block, blocked, to_big_int, order_key, is_absent, outcome_of, trade_input,
}

-- `s.toLowerCase()` on the ASCII letters; no other code unit changes. The texts it is applied to are
-- compared with texts of hexadecimal digits, which no other letter has as its lower case.
abbrev pub to_lower_case : Text → Text
to_lower_case s = map (λ c. if leb 65 c && leb c 90 then c + 32 else c) s

unfoldable pub evaluate_account :
    ExecutionRiskGateInput → ExecutionOperationalConfig → ExecutionRiskCheck
evaluate_account input config =
    pass_or_block
      (contains config.live.account_allowlist_hmacs (to_lower_case input.account_external_ref_hmac))
      live_account_allowlisted live_account_not_allowlisted (some input.account_external_ref_hmac)

abbrev pub is_kr : MarketCountry → Bool
is_kr kr = true
is_kr us = false

abbrev pub is_limit : OrderType → Bool
is_limit limit = true
is_limit market = false

abbrev pub is_day : TimeInForce → Bool
is_day day = true
is_day cls = false

abbrev pub is_bad_shape : PlannedExecutionOrder → Bool
is_bad_shape order =
    not (is_kr order.market_country)
    || not (is_limit order.order_type)
    || not (is_day order.time_in_force)

unfoldable pub evaluate_live_order_shape : List PlannedExecutionOrder → ExecutionRiskCheck
evaluate_live_order_shape orders =
    let invalid_order = find is_bad_shape orders in
    pass_or_block (is_absent invalid_order) live_order_shape_allowed live_order_shape_blocked
      (order_key invalid_order)

-- `result.canProceed ? "LIVE_TRADE_LIMITS_OK" : "LIVE_" + result.reasonCode`
abbrev pub live_code : TradeLimitDecision → CheckCode
live_code result =
    if result.can_proceed then live_trade_limits_ok else live_trade_limit result.reason_code

unfoldable pub evaluate_live_trade_limits :
    ExecutionRiskGateInput → ExecutionOperationalConfig → Result GateError ExecutionRiskCheck
evaluate_live_trade_limits input config = do
  max_single ← to_big_int config.live.max_single_order_gross_minor
  max_daily ← to_big_int config.live.max_daily_gross_minor
  let result = evaluate_trade_notional_limits (trade_input input config max_single max_daily)
  ok (record {
    code = live_code result;
    outcome = outcome_of result.can_proceed;
    subject_key = result.subject_key;
  })

abbrev pub gross_of : List PlannedExecutionOrder → ℤ
gross_of orders = sum_ℤ (λ order. order.trade.gross_notional_minor) orders

unfoldable pub evaluate_tiny_live_limit :
    List PlannedExecutionOrder → ExecutionOperationalConfig → Result GateError ExecutionRiskCheck
evaluate_tiny_live_limit orders config = do
  maximum ← to_big_int config.live.tiny_live_max_gross_minor
  ok (
      pass_or_block (leb_ℤ (gross_of orders) maximum) tiny_live_gross_limit_ok
        tiny_live_gross_limit_exceeded none)

abbrev pub is_hex_digit : ℕ → Bool
is_hex_digit c = leb 48 c && leb c 57 || leb 97 c && leb c 102 || leb 65 c && leb c 70

-- `/^[a-f0-9]{64}$/i.test(s)`
abbrev pub is_digest : Text → Bool
is_digest s = length s == 64 && all is_hex_digit s

-- The last four conditions: both dates are finite, and the approval is given and not expired.
abbrev pub is_timely : Option ℤ → Option ℤ → ℤ → Bool
is_timely none now ttl = false
is_timely (some approved) none ttl = false
is_timely (some approved) (some now) ttl =
    leb_ℤ approved now && ltb_ℤ now (approved +ℤ ttl *ℤ pos 1000)

unfoldable pub is_valid_approval :
    ExecutionRiskGateInput → ExecutionOperationalConfig → ManualLiveApprovalEvidence → Bool
is_valid_approval input config approval =
    not (is_blank approval.approval_id)
    && is_digest approval.approval_digest
    && text_eq approval.approval_digest approval.expected_approval_digest
    && text_eq approval.approved_plan_hash input.plan.plan_hash
    && text_eq (to_lower_case approval.approved_account_hmac)
        (to_lower_case input.account_external_ref_hmac)
    && is_absent approval.consumed_at
    && is_timely approval.approved_at input.now config.live.approval_ttl_seconds

unfoldable pub evaluate_manual_approval :
    ExecutionRiskGateInput → ExecutionOperationalConfig → ExecutionRiskCheck
evaluate_manual_approval input config = elim input.manual_approval [
  | none ↦ blocked live_manual_approval_missing (some input.plan.plan_id)
  | some approval ↦
      pass_or_block (is_valid_approval input config approval) live_manual_approval_valid
        live_manual_approval_invalid (some approval.approval_id)
]
