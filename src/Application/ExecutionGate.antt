-- ===== src/Application/ExecutionGate.antt =====
-- packages/application/src/execution-risk-gate.ts: whether a plan of orders may be executed. The types
-- are here; Checks has the checks of every mode, Live those of LIVE, Gate the decision. A date is the
-- number of its `getTime()`, or `none` where that is NaN; the numbers of the configuration are integers,
-- as OperationalConfigSchema demands; the Korean messages are left out.
pub mod Checks
pub mod Live
pub mod Gate
pub mod Conditions
pub mod LiveConditions
pub mod Decided
pub mod Throws
mod Examples
use portfolio_rebalancer.Prelude.{ℤ, Text, Bool, true, false, List, Option}
use portfolio_rebalancer.Application.OrderState.{OrderState}
use portfolio_rebalancer.Application.RiskLimits.Trade.{PlannedTradeNotional, TradeLimitReasonCode}
use portfolio_rebalancer.Application.RiskLimits.Exposure.{ExposureValue, ExposureLimitReasonCode}

pub data ExecutionMode : Type 0 where
  paper live : ExecutionMode

pub data MarketCountry : Type 0 where
  kr us : MarketCountry

pub data OrderType : Type 0 where
  limit market : OrderType

pub data TimeInForce : Type 0 where
  day cls : TimeInForce

pub record ExecutionLimits : Type 0 where
  pub minimum_order_gross_minor : Text
  pub max_single_order_gross_minor : Text
  pub max_daily_gross_minor : Text
  pub max_daily_turnover_basis_points : ℤ
  pub max_instrument_weight_basis_points : ℤ
  pub max_asset_class_weight_basis_points : ℤ
  pub max_risky_weight_basis_points : ℤ

pub record LiveConfig : Type 0 where
  pub enabled : Bool
  pub account_allowlist_hmacs : List Text
  pub approval_ttl_seconds : ℤ
  pub max_single_order_gross_minor : Text
  pub max_daily_gross_minor : Text
  pub tiny_live_max_gross_minor : Text

pub record ExecutionOperationalConfig : Type 0 where
  pub mode : ExecutionMode
  pub kill_switch : Bool
  pub limits : ExecutionLimits
  pub live : LiveConfig

pub data ValidatedExecutionOperationalConfig : Type 0 where
  valid : ExecutionOperationalConfig → ValidatedExecutionOperationalConfig
  invalid : ValidatedExecutionOperationalConfig

-- An order extends a planned trade, which is its field `trade`.
pub record PlannedExecutionOrder : Type 0 where
  pub trade : PlannedTradeNotional
  pub market_country : MarketCountry
  pub order_type : OrderType
  pub time_in_force : TimeInForce

pub record ExecutionPlanIdentity : Type 0 where
  pub plan_id : Text
  pub plan_hash : Text
  pub mode : ExecutionMode
  pub snapshot_id : Text
  pub snapshot_digest : Text
  pub target_config_version_id : Text
  pub target_config_content_hash : Text
  pub orders : List PlannedExecutionOrder

pub record CurrentExecutionIdentity : Type 0 where
  pub snapshot_id : Text
  pub snapshot_digest : Text
  pub target_config_version_id : Text
  pub target_config_content_hash : Text

pub record ExistingOrderSummary : Type 0 where
  pub logical_order_id : Text
  pub state : OrderState

pub record ManualLiveApprovalEvidence : Type 0 where
  pub approval_id : Text
  pub approval_digest : Text
  pub expected_approval_digest : Text
  pub approved_plan_hash : Text
  pub approved_account_hmac : Text
  pub approved_at : Option ℤ
  pub consumed_at : Option (Option ℤ)

pub data CheckCode : Type 0 where
  operational_config_invalid : CheckCode
  execution_mode_matched execution_mode_mismatch : CheckCode
  kill_switch_released kill_switch_active : CheckCode
  plan_mode_matched plan_mode_mismatch : CheckCode
  plan_has_no_executable_orders minimum_order_gross_ok order_below_minimum_gross : CheckCode
  plan_identity_current plan_identity_stale : CheckCode
  no_unresolved_orders unresolved_order_exists : CheckCode
  trade_limit : TradeLimitReasonCode → CheckCode
  exposure_limit : ExposureLimitReasonCode → CheckCode
  live_explicitly_enabled live_not_enabled : CheckCode
  live_account_allowlisted live_account_not_allowlisted : CheckCode
  live_order_shape_allowed live_order_shape_blocked : CheckCode
  live_trade_limits_ok : CheckCode
  live_trade_limit : TradeLimitReasonCode → CheckCode
  tiny_live_gross_limit_ok tiny_live_gross_limit_exceeded : CheckCode
  live_manual_approval_missing live_manual_approval_valid live_manual_approval_invalid : CheckCode

pub data CheckOutcome : Type 0 where
  passed_check blocked_check : CheckOutcome

pub record ExecutionRiskCheck : Type 0 where
  pub code : CheckCode
  pub outcome : CheckOutcome
  pub subject_key : Option Text

pub data GateStatus : Type 0 where
  ready_to_execute blocked_from_executing : GateStatus

pub record ExecutionRiskGateDecision : Type 0 where
  pub status : GateStatus
  pub can_execute : Bool
  pub checks : List ExecutionRiskCheck

pub record ProjectedExposure : Type 0 where
  pub portfolio_value_minor : ℤ
  pub instruments : List ExposureValue
  pub asset_classes : List ExposureValue
  pub risky_asset_value_minor : ℤ

pub record ExecutionRiskGateInput : Type 0 where
  pub operational_config : ValidatedExecutionOperationalConfig
  pub requested_mode : ExecutionMode
  pub now : Option ℤ
  pub account_external_ref_hmac : Text
  pub plan : ExecutionPlanIdentity
  pub current_identity : CurrentExecutionIdentity
  pub existing_orders : List ExistingOrderSummary
  pub trade_day_filled_gross_minor : ℤ
  pub reserved_pending_gross_minor : ℤ
  pub baseline_portfolio_value_minor : ℤ
  pub projected_exposure : ProjectedExposure
  pub manual_approval : Option ManualLiveApprovalEvidence

-- What is thrown: the SyntaxError of `BigInt` on a text that is no integer. Its RangeError on a number
-- that is no integer does not arise, since the numbers of the configuration are integers.
pub data GateError : Type 0 where
  not_an_integer : Text → GateError

abbrev pub is_passed : ExecutionRiskCheck → Bool
is_passed check = elim check.outcome [ passed_check ↦ true | blocked_check ↦ false ]
