-- ===== src/Application/PaperExecutor.antt =====
-- packages/application/src/paper-order-executor.ts: a step of the replay of a Korean day order with a
-- limit, from a quote and an order book. The types are here; Evidence has the tests of the input and of
-- its evidence, Book the fill, Step the whole step. What TypeScript's types exclude is not tested again,
-- save where the order's type is wider here; the numbers of the freshness policy are integers; the
-- constants of the result (policyVersion, limitations, kind and the null of broker) are left out.
-- `execute` of PaperOrderExecutor returns the value of the step as a promise.
pub mod Evidence
pub mod Book
pub mod Step
pub mod Fill
pub mod Valid
pub mod Outcome
pub mod Replay
mod Examples
use portfolio_rebalancer.Prelude.{ℤ, pos, Text, Bool, true, false, Option, none, some, List, []}
use portfolio_rebalancer.Broker.{
  BrokerReadResult, PriceQuote, OrderBookSnapshot, BrokerObservationMetadata,
}
use portfolio_rebalancer.Domain.Money.{Currency}
use portfolio_rebalancer.Domain.OrderRounding.{Side}
use portfolio_rebalancer.Application.OrderState.{OrderState}
use portfolio_rebalancer.Application.ExecutionGate.{MarketCountry, OrderType, TimeInForce}
use portfolio_rebalancer.Application.Commission.{CommissionRateSchedule}

pub data PaperExecutionDecision : Type 0 where
  filled partial_filled no_fill blocked : PaperExecutionDecision

pub data PaperExecutionReasonCode : Type 0 where
  limit_fully_filled limit_partially_filled limit_not_crossed : PaperExecutionReasonCode
  fillable_liquidity_insufficient order_input_invalid unsupported_market : PaperExecutionReasonCode
  unsupported_currency unsupported_order_type : PaperExecutionReasonCode
  unsupported_time_in_force partial_fill_policy_invalid : PaperExecutionReasonCode
  evaluation_time_invalid freshness_policy_invalid : PaperExecutionReasonCode
  quote_missing orderbook_missing evidence_identity_mismatch : PaperExecutionReasonCode
  quote_price_invalid quote_observed_at_missing quote_time_invalid : PaperExecutionReasonCode
  quote_not_later_than_order quote_stale orderbook_side_missing : PaperExecutionReasonCode
  orderbook_level_invalid orderbook_observed_at_missing : PaperExecutionReasonCode
  orderbook_time_invalid orderbook_not_later_than_order : PaperExecutionReasonCode
  orderbook_stale commission_unverified : PaperExecutionReasonCode

pub data PaperSourceRawState : Type 0 where
  paper_limit_full_fill paper_limit_partial_fill paper_limit_not_crossed : PaperSourceRawState
  paper_liquidity_insufficient paper_execution_blocked : PaperSourceRawState

pub record PaperLimitDayOrder : Type 0 where
  pub logical_order_id : Text
  pub current_state : OrderState
  pub market_country : MarketCountry
  pub currency : Currency
  pub symbol : Text
  pub side : Side
  pub order_type : OrderType
  pub time_in_force : TimeInForce
  pub remaining_quantity : ℤ
  pub limit_price_minor : ℤ
  pub submitted_at : Text
  pub trade_date : Text

pub record PaperPartialFillPolicy : Type 0 where
  pub enabled : Bool
  pub book_participation_basis_points : ℤ

pub record PaperFreshnessPolicy : Type 0 where
  pub max_evidence_age_ms : ℤ
  pub future_tolerance_ms : ℤ

pub record PaperLimitExecutionInput : Type 0 where
  pub fixture_version : Text
  pub order : PaperLimitDayOrder
  pub evaluated_at : Text
  pub freshness_policy : PaperFreshnessPolicy
  pub partial_fill_policy : PaperPartialFillPolicy
  pub quote : Option (BrokerReadResult PriceQuote)
  pub order_book : Option (BrokerReadResult OrderBookSnapshot)
  pub commission_schedule : CommissionRateSchedule

pub record PaperLevelExecution : Type 0 where
  pub price_minor : ℤ
  pub quantity : ℤ
  pub notional_minor : ℤ

pub record PaperExecutionFill : Type 0 where
  pub quantity : ℤ
  pub remaining_quantity : ℤ
  pub gross_notional_minor : ℤ
  pub commission_minor : ℤ
  pub net_cash_delta_minor : ℤ
  pub executions : List PaperLevelExecution

pub record PaperExecutionEvidence : Type 0 where
  pub quote_observed_at : Option Text
  pub order_book_observed_at : Option Text
  pub quote_price_minor : Option ℤ
  pub best_relevant_book_price_minor : Option ℤ
  pub qualifying_book_quantity : ℤ
  pub simulated_available_quantity : ℤ
  pub quote_audit_reference : Option Text
  pub order_book_audit_reference : Option Text

pub record NormalizedTransition : Type 0 where
  pub from : OrderState
  pub to : OrderState
  pub applied : Bool

pub record RawState : Type 0 where
  pub value : PaperSourceRawState
  pub quote_operation_id : Option Text
  pub quote_request_id : Option Text
  pub order_book_operation_id : Option Text
  pub order_book_request_id : Option Text

pub record PaperOrderExecutionResult : Type 0 where
  pub logical_order_id : Text
  pub decision : PaperExecutionDecision
  pub reason_code : PaperExecutionReasonCode
  pub normalized_transition : NormalizedTransition
  pub fill : PaperExecutionFill
  pub evidence : PaperExecutionEvidence
  pub raw_state : RawState

pub record ParsedBookLevel : Type 0 where
  pub original_index : ℤ
  pub price_minor : ℤ
  pub quantity : ℤ

pub record ValidatedEvidence : Type 0 where
  pub quote_price_minor : ℤ
  pub quote_observed_at : Text
  pub order_book_observed_at : Text
  pub relevant_levels : List ParsedBookLevel

pub record FillSimulation : Type 0 where
  pub fill_quantity : ℤ
  pub qualifying_book_quantity : ℤ
  pub simulated_available_quantity : ℤ
  pub executions : List PaperLevelExecution

abbrev pub basis_point_scale : ℤ
basis_point_scale = pos 10000
