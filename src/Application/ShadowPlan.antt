-- ===== src/Application/ShadowPlan.antt =====
-- packages/application/src/shadow-plan.ts: a plan of orders from one pinned snapshot, which never spends
-- the proceeds of its own sales. The types are here; Normalize has the tests of the input, Instruments
-- the desired value of each instrument, Orders the two phases, Plan the whole plan. The canonical text
-- of a plan, its hash and its version are left out, and so are the constants KR, KRW, LIMIT and DAY of
-- its orders.
pub mod Normalize
pub mod Instruments
pub mod Orders
pub mod Plan
pub mod Rounds
pub mod Funding
pub mod Spending
pub mod Phases
pub mod Safe
mod Examples
use portfolio_rebalancer.Prelude.{ℤ, Text, Bool, true, false, Option, List, ◌++◌, ◌∷◌, []}
use portfolio_rebalancer.Domain.Rebalance.{RebalanceReturnPolicy, RebalanceReason}
use portfolio_rebalancer.Domain.OrderRounding.{Side, RoundedKrOrder}
use portfolio_rebalancer.Domain.Projection.{ProjectedAllocation}

pub data ShadowPlanStatus : Type 0 where
  no_action planned blocked : ShadowPlanStatus

pub data ShadowPlanReasonCode : Type 0 where
  no_rebalance_needed rebalance_needs_no_order_candidate : ShadowPlanReasonCode
  no_executable_order_after_rounding sell_phase_ready buy_phase_ready : ShadowPlanReasonCode
  buy_phase_deferred buy_needs_remain identity_missing identity_mismatch : ShadowPlanReasonCode
  managed_cash_unset cash_input_invalid cash_asset_invalid : ShadowPlanReasonCode
  portfolio_total_invalid asset_input_invalid asset_value_mismatch : ShadowPlanReasonCode
  within_asset_allocation_invalid duplicate_asset_class : ShadowPlanReasonCode
  duplicate_instrument instrument_input_invalid instrument_value_mismatch : ShadowPlanReasonCode
  price_missing_or_invalid unsupported_market unsupported_currency : ShadowPlanReasonCode
  unsupported_order_prerequisite sellable_quantity_missing : ShadowPlanReasonCode
  sellable_quantity_insufficient calculation_input_invalid : ShadowPlanReasonCode
  snapshot_not_verified target_config_not_pinned quote_stale : ShadowPlanReasonCode
  market_calendar_stale market_session_unverified : ShadowPlanReasonCode
  trade_restriction_unverified commission_unverified : ShadowPlanReasonCode

pub data DeferredBuyReasonCode : Type 0 where
  sell_phase_must_reconcile insufficient_spendable_cash buy_zero_quantity : DeferredBuyReasonCode
  buy_below_minimum buy_rounding_remainder : DeferredBuyReasonCode

pub data AssetKind : Type 0 where
  securities cash : AssetKind

pub record ShadowPlanIdentityInput : Type 0 where
  pub pinned_snapshot_id : Option Text
  pub current_snapshot_id : Option Text
  pub pinned_snapshot_digest : Option Text
  pub current_snapshot_digest : Option Text
  pub pinned_config_version_id : Option Text
  pub current_config_version_id : Option Text

pub record ShadowOrderPrerequisitesInput : Type 0 where
  pub order_type : Text
  pub time_in_force : Text
  pub whole_shares_only : Bool

pub record ShadowPlanInstrumentInput : Type 0 where
  pub market_country : Text
  pub currency : Text
  pub symbol : Text
  pub current_value_minor : ℤ
  pub target_within_asset_points : ℤ
  pub current_quantity : ℤ
  pub price_minor : Option ℤ
  pub available_sell_quantity : Option ℤ

pub record ShadowPlanAssetClassInput : Type 0 where
  pub id : Text
  pub kind : AssetKind
  pub current_value_minor : ℤ
  pub target_basis_points : ℤ
  pub lower_basis_points : ℤ
  pub upper_basis_points : ℤ
  pub instruments : List ShadowPlanInstrumentInput

pub record CreateShadowPlanInput : Type 0 where
  pub identity : ShadowPlanIdentityInput
  pub asset_classes : List ShadowPlanAssetClassInput
  pub managed_cash_minor : Option ℤ
  pub spendable_cash_minor : Option ℤ
  pub return_policy : RebalanceReturnPolicy
  pub minimum_order_minor : ℤ
  pub order_prerequisites : ShadowOrderPrerequisitesInput

pub record ShadowInstrumentDecision : Type 0 where
  pub instrument_key : Text
  pub asset_class_id : Text
  pub symbol : Text
  pub current_value_minor : ℤ
  pub desired_value_minor : ℤ
  pub delta_minor : ℤ
  pub target_within_asset_points : ℤ
  pub current_quantity : ℤ
  pub price_minor : ℤ
  pub available_sell_quantity : Option ℤ

pub record ShadowAssetDecision : Type 0 where
  pub id : Text
  pub kind : AssetKind
  pub current_value_minor : ℤ
  pub target_basis_points : ℤ
  pub lower_basis_points : ℤ
  pub upper_basis_points : ℤ
  pub reason : RebalanceReason
  pub desired_value_minor : ℤ
  pub delta_minor : ℤ
  pub instruments : List ShadowInstrumentDecision

-- The phase of an order is its side.
pub record ShadowExecutableOrder : Type 0 where
  pub candidate_id : Text
  pub asset_class_id : Text
  pub instrument_key : Text
  pub symbol : Text
  pub side : Side
  pub quantity : ℤ
  pub limit_price_minor : ℤ
  pub notional_minor : ℤ
  pub unallocated_minor : ℤ

pub record ShadowDeferredBuyNeed : Type 0 where
  pub asset_class_id : Text
  pub instrument_key : Text
  pub symbol : Text
  pub desired_notional_minor : ℤ
  pub funded_minor : ℤ
  pub executable_notional_minor : ℤ
  pub remaining_need_minor : ℤ
  pub preview_quantity : ℤ
  pub preview_notional_minor : ℤ
  pub reason_codes : List DeferredBuyReasonCode

-- `...allocation` and its kind.
pub record ShadowProjectedAllocation : Type 0 where
  pub allocation : ProjectedAllocation
  pub kind : AssetKind

pub record ShadowPlanResult : Type 0 where
  pub status : ShadowPlanStatus
  pub reason_codes : List ShadowPlanReasonCode
  pub return_policy : RebalanceReturnPolicy
  pub snapshot_id : Option Text
  pub snapshot_digest : Option Text
  pub config_version_id : Option Text
  pub total_value_minor : Option ℤ
  pub asset_decisions : List ShadowAssetDecision
  pub executable_orders : List ShadowExecutableOrder
  pub deferred_buy_needs : List ShadowDeferredBuyNeed
  pub projected_allocations : List ShadowProjectedAllocation

pub record NormalizedInput : Type 0 where
  pub asset_classes : List ShadowPlanAssetClassInput
  pub cash_asset_class_id : Text
  pub spendable_cash_minor : ℤ
  pub return_policy : RebalanceReturnPolicy
  pub minimum_order_minor : ℤ

pub record BuyFunding : Type 0 where
  pub funded_minor : ℤ
  pub rounded : RoundedKrOrder

-- `instrumentKey`
abbrev pub instrument_key : ShadowPlanInstrumentInput → Text
instrument_key instrument = instrument.market_country ++ 58 ∷ instrument.symbol

abbrev pub is_cash : AssetKind → Bool
is_cash cash = true
is_cash securities = false
