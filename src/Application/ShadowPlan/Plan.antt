-- ===== src/Application/ShadowPlan/Plan.antt =====
-- packages/application/src/shadow-plan.ts, createShadowRebalancePlan, createBlockedShadowRebalancePlan and
-- what they build.
use portfolio_rebalancer.Prelude.{
  ℤ, pos, ◌+ℤ◌, ◌-ℤ◌, leb_ℤ, eq_ℤ, Text, text_eq, is_blank, compare_text, TextMap, map_get, map_set,
  sort, Bool, true, false, not, ◌&&◌, Option, none, some, List, [], ◌∷◌, ◌++◌, map, filter, find,
  any, Ordering, if◌then◌else◌, Result, ok, err, ◌>>=◌, ◌>>◌, throw_if, map_ok,
}
use portfolio_rebalancer.Domain.Rebalance.{
  RebalanceAssetInput, RebalanceAssetDecision, calculate_rebalance_targets,
}
use portfolio_rebalancer.Domain.OrderRounding.{Side, buy, sell}
use portfolio_rebalancer.Domain.Projection.{
  ProjectedAllocation, ProjectedAllocationInput, project_allocation_after_rounded_trades,
}
use portfolio_rebalancer.Application.ShadowPlan.{
  ShadowPlanStatus, no_action, planned, blocked, ShadowPlanReasonCode, no_rebalance_needed,
  rebalance_needs_no_order_candidate, no_executable_order_after_rounding, sell_phase_ready,
  buy_phase_ready, buy_phase_deferred, buy_needs_remain, price_missing_or_invalid,
  calculation_input_invalid, AssetKind, cash, securities, ShadowPlanAssetClassInput,
  CreateShadowPlanInput, ShadowInstrumentDecision, ShadowAssetDecision, ShadowExecutableOrder,
  ShadowDeferredBuyNeed, ShadowProjectedAllocation, ShadowPlanResult, NormalizedInput,
}
use portfolio_rebalancer.Application.ShadowPlan.Normalize.{validate_and_normalize_input}
use portfolio_rebalancer.Application.ShadowPlan.Instruments.{allocate_desired_instrument_values}
use portfolio_rebalancer.Application.ShadowPlan.Orders.{
  PlanStop, blocked_by, thrown, missing_value, attempt, get_required, or_zero_minor, is_purchase,
  is_sale, Phase, sell_phase, buy_phase,
}

-- `nonEmptyOrNull`
abbrev pub non_empty_or_null : Option Text → Option Text
non_empty_or_null none = none
non_empty_or_null (some value) = if is_blank value then none else some value

-- What a plan says besides its identity.
pub record PlanContent : Type 0 where
  pub status : ShadowPlanStatus
  pub reason_codes : List ShadowPlanReasonCode
  pub total_value_minor : Option ℤ
  pub asset_decisions : List ShadowAssetDecision
  pub executable_orders : List ShadowExecutableOrder
  pub deferred_buy_needs : List ShadowDeferredBuyNeed
  pub projected_allocations : List ShadowProjectedAllocation

unfoldable pub create_result : CreateShadowPlanInput → PlanContent → ShadowPlanResult
create_result input content = record {
  status = content.status;
  reason_codes = content.reason_codes;
  return_policy = input.return_policy;
  snapshot_id = non_empty_or_null input.identity.pinned_snapshot_id;
  snapshot_digest = non_empty_or_null input.identity.pinned_snapshot_digest;
  config_version_id = non_empty_or_null input.identity.pinned_config_version_id;
  total_value_minor = content.total_value_minor;
  asset_decisions = content.asset_decisions;
  executable_orders = content.executable_orders;
  deferred_buy_needs = content.deferred_buy_needs;
  projected_allocations = content.projected_allocations;
}

unfoldable pub blocked_plan : CreateShadowPlanInput → ShadowPlanReasonCode → ShadowPlanResult
blocked_plan input reason = create_result input (record {
  status = blocked;
  reason_codes = reason ∷ [];
  total_value_minor = none;
  asset_decisions = [];
  executable_orders = [];
  deferred_buy_needs = [];
  projected_allocations = [];
})

abbrev pub rebalance_input : ShadowPlanAssetClassInput → RebalanceAssetInput
rebalance_input asset = record {
  id = asset.id;
  value_minor = asset.current_value_minor;
  target_basis_points = asset.target_basis_points;
  lower_basis_points = asset.lower_basis_points;
  upper_basis_points = asset.upper_basis_points;
}

abbrev pub instruments_for :
    ShadowPlanAssetClassInput → AssetKind → ℤ → List ShadowInstrumentDecision
instruments_for asset cash desired = []
instruments_for asset securities desired = allocate_desired_instrument_values asset desired

-- The body of the `map` over the decisions.
unfoldable pub asset_decision :
    List ShadowPlanAssetClassInput → RebalanceAssetDecision → Result PlanStop ShadowAssetDecision
asset_decision assets decision = do
  asset ← get_required decision.input.id (find (λ asset. text_eq asset.id decision.input.id) assets)
  ok (record {
    id = decision.input.id;
    kind = asset.kind;
    current_value_minor = decision.input.value_minor;
    target_basis_points = decision.input.target_basis_points;
    lower_basis_points = decision.input.lower_basis_points;
    upper_basis_points = decision.input.upper_basis_points;
    reason = decision.reason;
    desired_value_minor = decision.desired_value_minor;
    delta_minor = decision.delta_minor;
    instruments = instruments_for asset asset.kind decision.desired_value_minor;
  })

-- `assetDecisions.flatMap(({ instruments }) => instruments)`
unfoldable pub instruments_of : List ShadowAssetDecision → List ShadowInstrumentDecision
instruments_of [] = []
instruments_of (asset ∷ assets) = asset.instruments ++ instruments_of assets

-- The changes of value by the orders, without the sign of a sale.
abbrev pub signed_notional : ShadowExecutableOrder → Side → ℤ
signed_notional order buy = order.notional_minor
signed_notional order sell = pos 0 -ℤ order.notional_minor

-- The loop over the orders: `deltaByAsset` and `cashDeltaMinor`.
unfoldable pub add_deltas : TextMap ℤ → ℤ → List ShadowExecutableOrder → TextMap ℤ × ℤ
add_deltas deltas cash_delta [] = (deltas, cash_delta)
add_deltas deltas cash_delta (order ∷ orders) =
    let signed = signed_notional order order.side in
    add_deltas
      (map_set order.asset_class_id (or_zero_minor (map_get order.asset_class_id deltas) +ℤ signed)
        deltas)
      (cash_delta -ℤ signed) orders

abbrev pub projection_input : TextMap ℤ → ShadowAssetDecision → ProjectedAllocationInput
projection_input deltas asset = record {
  asset = record {
    id = asset.id;
    value_minor = asset.current_value_minor;
    target_basis_points = asset.target_basis_points;
    lower_basis_points = asset.lower_basis_points;
    upper_basis_points = asset.upper_basis_points;
  };
  delta_minor = or_zero_minor (map_get asset.id deltas);
}

unfoldable pub with_kind :
    List ShadowAssetDecision → ProjectedAllocation → Result PlanStop ShadowProjectedAllocation
with_kind assets allocation = do
  asset ← get_required allocation.id (find (λ asset. text_eq asset.id allocation.id) assets)
  ok (record { allocation = allocation; kind = asset.kind })

unfoldable pub project_after_orders :
    List ShadowAssetDecision
    → List ShadowExecutableOrder
    → Text
    → Result PlanStop (List ShadowProjectedAllocation)
project_after_orders assets orders cash_id = do
  let (deltas, cash_delta) = add_deltas [] (pos 0) orders
  projected ← attempt (
      project_allocation_after_rounded_trades
        (map (projection_input (map_set cash_id cash_delta deltas)) assets))
  map_ok (with_kind assets) projected.allocations

abbrev pub is_some : {A : Type 0} → List A → Bool
is_some [] = false
is_some (x ∷ xs) = true

-- `planReasonCodes`, with `planned` for the status PLANNED.
unfoldable pub plan_reason_codes : Bool → Bool → Bool → Bool → Bool → List ShadowPlanReasonCode
plan_reason_codes has_orders has_asset_needs has_sell_needs has_buy_needs has_deferred =
    if not has_orders
    then if not has_asset_needs && not has_sell_needs && not has_buy_needs
      then no_rebalance_needed ∷ []
      else if not has_sell_needs && not has_buy_needs
      then rebalance_needs_no_order_candidate ∷ []
      else if has_sell_needs && has_buy_needs
      then no_executable_order_after_rounding ∷ buy_phase_deferred ∷ []
      else no_executable_order_after_rounding ∷ []
    else if has_sell_needs
    then if has_buy_needs then sell_phase_ready ∷ buy_phase_deferred ∷ [] else sell_phase_ready ∷ []
    else if has_deferred
    then buy_phase_ready ∷ buy_needs_remain ∷ []
    else buy_phase_ready ∷ []

unfoldable pub compare_orders : ShadowExecutableOrder → ShadowExecutableOrder → Ordering
compare_orders left right = compare_text left.candidate_id right.candidate_id

unfoldable pub compare_deferred_buy_needs : ShadowDeferredBuyNeed → ShadowDeferredBuyNeed → Ordering
compare_deferred_buy_needs left right =
    compare_text (left.asset_class_id ++ 58 ∷ left.instrument_key)
      (right.asset_class_id ++ 58 ∷ right.instrument_key)

-- The phase of a plan: sales, if there is one to make, or else purchases.
abbrev pub phase_of :
    NormalizedInput
    → List ShadowAssetDecision
    → List ShadowInstrumentDecision
    → List ShadowInstrumentDecision
    → Result PlanStop Phase
phase_of input assets [] [] = ok (record { orders = []; deferred = [] })
phase_of input assets [] (need ∷ needs) =
    buy_phase input.minimum_order_minor input.spendable_cash_minor assets (need ∷ needs)
phase_of input assets (need ∷ needs) buys = sell_phase input.minimum_order_minor (need ∷ needs) buys

-- The `try` block.
unfoldable pub plan_content : NormalizedInput → Result PlanStop PlanContent
plan_content input = do
  rebalance ←
      attempt
        (calculate_rebalance_targets (map rebalance_input input.asset_classes) input.return_policy)
  assets ← map_ok (asset_decision input.asset_classes) rebalance.decisions
  let needs = instruments_of assets
  throw_if (any (λ need. leb_ℤ need.price_minor (pos 0)) needs)
      (blocked_by price_missing_or_invalid)
  let sells = filter is_sale needs
  let buys = filter is_purchase needs
  phase ← phase_of input assets sells buys
  let orders = sort compare_orders phase.orders
  let deferred = sort compare_deferred_buy_needs phase.deferred
  projected ← project_after_orders assets orders input.cash_asset_class_id
  ok (record {
    status = if is_some orders then planned else no_action;
    reason_codes =
        plan_reason_codes (is_some orders)
          (any (λ asset. not (eq_ℤ asset.delta_minor (pos 0))) assets) (is_some sells)
          (is_some buys) (is_some deferred);
    total_value_minor = some rebalance.total_value_minor;
    asset_decisions = assets;
    executable_orders = orders;
    deferred_buy_needs = deferred;
    projected_allocations = projected;
  })

-- A plan, or why there is none.
abbrev pub plan_or_blocked : CreateShadowPlanInput → Result PlanStop PlanContent → ShadowPlanResult
plan_or_blocked input (err (blocked_by reason)) = blocked_plan input reason
plan_or_blocked input (err (thrown error)) = blocked_plan input calculation_input_invalid
plan_or_blocked input (err (missing_value key)) = blocked_plan input calculation_input_invalid
plan_or_blocked input (ok content) = create_result input content

abbrev pub plan_normalized :
    CreateShadowPlanInput → Result ShadowPlanReasonCode NormalizedInput → ShadowPlanResult
plan_normalized input (err reason) = blocked_plan input reason
plan_normalized input (ok normalized) = plan_or_blocked input (plan_content normalized)

unfoldable pub create_shadow_rebalance_plan : CreateShadowPlanInput → ShadowPlanResult
create_shadow_rebalance_plan input = plan_normalized input (validate_and_normalize_input input)

unfoldable pub create_blocked_shadow_rebalance_plan :
    CreateShadowPlanInput → ShadowPlanReasonCode → ShadowPlanResult
create_blocked_shadow_rebalance_plan input reason = blocked_plan input reason
