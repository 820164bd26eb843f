-- ===== src/Application/ShadowPlan/Orders.antt =====
-- packages/application/src/shadow-plan.ts, the two phases of createShadowRebalancePlan and the orders
-- and deferred needs that they give.
use portfolio_rebalancer.Prelude.{
  ℤ, pos, ◌-ℤ◌, ltb_ℤ, sum_ℤ, Text, text, text_eq, TextMap, map_get, map_of, Bool, true, false, not,
  ◌&&◌, Option, none, some, List, [], ◌∷◌, ◌++◌, map, filter, find, if◌then◌else◌, Result, ok, err,
  ◌>>=◌, map_ok,
}
use portfolio_rebalancer.Domain.{DomainError}
use portfolio_rebalancer.Domain.OrderRounding.{
  Side, buy, sell, RoundedStatus, orderable, below_minimum, zero_quantity, KrOrderRoundingInput,
  RoundedKrOrder, round_kr_order,
}
use portfolio_rebalancer.Domain.Cash.{
  CashPriorityCandidate, CashAllocation, allocate_spendable_cash,
}
use portfolio_rebalancer.Application.ShadowPlan.{
  ShadowPlanReasonCode, sellable_quantity_missing, sellable_quantity_insufficient,
  DeferredBuyReasonCode, sell_phase_must_reconcile, insufficient_spendable_cash, buy_zero_quantity,
  buy_below_minimum, buy_rounding_remainder, is_cash, ShadowInstrumentDecision, ShadowAssetDecision,
  ShadowExecutableOrder, ShadowDeferredBuyNeed, BuyFunding,
}

-- Why a plan is not made: it returns a blocked result, or it throws.
pub data PlanStop : Type 0 where
  blocked_by : ShadowPlanReasonCode → PlanStop
  thrown : DomainError → PlanStop
  missing_value : Text → PlanStop

-- A call that may throw.
abbrev pub attempt : {A : Type 0} → Result DomainError A → Result PlanStop A
attempt (err error) = err (thrown error)
attempt (ok a) = ok a

-- A call whose errors are caught.
abbrev pub attempt_or :
    {A : Type 0} → ShadowPlanReasonCode → Result DomainError A → Result PlanStop A
attempt_or reason (err error) = err (blocked_by reason)
attempt_or reason (ok a) = ok a

-- `getRequired`
abbrev pub get_required : {A : Type 0} → Text → Option A → Result PlanStop A
get_required key none = err (missing_value key)
get_required key (some a) = ok a

-- A value, or a blocked plan.
abbrev pub available_or : {A : Type 0} → ShadowPlanReasonCode → Option A → Result PlanStop A
available_or reason none = err (blocked_by reason)
available_or reason (some a) = ok a

abbrev pub is_orderable : RoundedStatus → Bool
is_orderable orderable = true
is_orderable below_minimum = false
is_orderable zero_quantity = false

abbrev pub side_name : Side → Text
side_name buy = text "BUY"
side_name sell = text "SELL"

unfoldable pub to_executable_order :
    ShadowInstrumentDecision → RoundedKrOrder → ShadowExecutableOrder
to_executable_order need rounded = record {
  candidate_id = need.asset_class_id ++ 58 ∷ need.instrument_key ++ 58 ∷ side_name rounded.side;
  asset_class_id = need.asset_class_id;
  instrument_key = need.instrument_key;
  symbol = need.symbol;
  side = rounded.side;
  quantity = rounded.quantity;
  limit_price_minor = need.price_minor;
  notional_minor = rounded.notional_minor;
  unallocated_minor = rounded.unallocated_minor;
}

-- A need and what it is rounded to.
pub record RoundedNeed : Type 0 where
  pub need : ShadowInstrumentDecision
  pub funded_minor : ℤ
  pub rounded : RoundedKrOrder

-- The orders among the rounded needs.
unfoldable pub orders_of : List RoundedNeed → List ShadowExecutableOrder
orders_of needs =
    map (λ item. to_executable_order item.need item.rounded)
      (filter (λ item. is_orderable item.rounded.status) needs)

-- `rounded.status === "ORDERABLE" ? rounded.notionalMinor : 0n`
abbrev pub executable_notional : RoundedKrOrder → ℤ
executable_notional rounded = if is_orderable rounded.status then rounded.notional_minor else pos 0

abbrev pub executable_quantity : RoundedKrOrder → ℤ
executable_quantity rounded = if is_orderable rounded.status then rounded.quantity else pos 0

abbrev pub purchase_of : ShadowInstrumentDecision → ℤ → ℤ → KrOrderRoundingInput
purchase_of need desired minimum = record {
  id = need.instrument_key;
  side = buy;
  desired_notional_minor = desired;
  price_minor = need.price_minor;
  minimum_order_minor = minimum;
  available_quantity = none;
}

unfoldable pub create_deferred_buy_need :
    ShadowInstrumentDecision
    → ℤ
    → RoundedKrOrder
    → List DeferredBuyReasonCode
    → Bool
    → Result PlanStop ShadowDeferredBuyNeed
create_deferred_buy_need need funded rounded reasons execution_allowed = do
  let executable = if execution_allowed then executable_notional rounded else pos 0
  preview ← attempt (round_kr_order (purchase_of need need.delta_minor (pos 0)))
  ok (record {
    asset_class_id = need.asset_class_id;
    instrument_key = need.instrument_key;
    symbol = need.symbol;
    desired_notional_minor = need.delta_minor;
    funded_minor = funded;
    executable_notional_minor = executable;
    remaining_need_minor = need.delta_minor -ℤ executable;
    preview_quantity = executable_quantity preview;
    preview_notional_minor = executable_notional preview;
    reason_codes = reasons;
  })

abbrev pub when : Bool → DeferredBuyReasonCode → List DeferredBuyReasonCode
when test reason = if test then reason ∷ [] else []

abbrev pub is_zero_quantity : RoundedStatus → Bool
is_zero_quantity zero_quantity = true
is_zero_quantity orderable = false
is_zero_quantity below_minimum = false

abbrev pub is_below_minimum : RoundedStatus → Bool
is_below_minimum below_minimum = true
is_below_minimum orderable = false
is_below_minimum zero_quantity = false

unfoldable pub deferred_buy_reasons : ℤ → BuyFunding → List DeferredBuyReasonCode
deferred_buy_reasons desired funding =
    when (ltb_ℤ funding.funded_minor desired) insufficient_spendable_cash
    ++ when (is_zero_quantity funding.rounded.status) buy_zero_quantity
    ++ when (is_below_minimum funding.rounded.status) buy_below_minimum
    ++ when
        (is_orderable funding.rounded.status
          && ltb_ℤ funding.rounded.notional_minor funding.funded_minor)
        buy_rounding_remainder

abbrev pub sale_of : ShadowInstrumentDecision → ℤ → ℤ → KrOrderRoundingInput
sale_of need available minimum = record {
  id = need.instrument_key;
  side = sell;
  desired_notional_minor = pos 0 -ℤ need.delta_minor;
  price_minor = need.price_minor;
  minimum_order_minor = minimum;
  available_quantity = some available;
}

-- The body of the loop over the sales.
unfoldable pub round_sale : ℤ → ShadowInstrumentDecision → Result PlanStop RoundedNeed
round_sale minimum need = do
  available ← available_or sellable_quantity_missing need.available_sell_quantity
  rounded ←
      attempt_or sellable_quantity_insufficient (round_kr_order (sale_of need available minimum))
  ok (record { need = need; funded_minor = pos 0; rounded = rounded })

-- The body of the loop over the purchases of the first phase.
unfoldable pub defer_purchase : ℤ → ShadowInstrumentDecision → Result PlanStop ShadowDeferredBuyNeed
defer_purchase minimum need = do
  rounded ← attempt (round_kr_order (purchase_of need need.delta_minor minimum))
  create_deferred_buy_need need (pos 0) rounded (sell_phase_must_reconcile ∷ []) false

-- The orders and the deferred needs of a phase.
pub record Phase : Type 0 where
  pub orders : List ShadowExecutableOrder
  pub deferred : List ShadowDeferredBuyNeed

unfoldable pub sell_phase :
    ℤ → List ShadowInstrumentDecision → List ShadowInstrumentDecision → Result PlanStop Phase
sell_phase minimum sells buys = do
  rounded ← map_ok (round_sale minimum) sells
  deferred ← map_ok (defer_purchase minimum) buys
  ok (record { orders = orders_of rounded; deferred = deferred })

-- `maxBigInt`
abbrev pub max_big_int : ℤ → ℤ → ℤ
max_big_int left right = if ltb_ℤ right left then left else right

abbrev pub is_purchase : ShadowInstrumentDecision → Bool
is_purchase need = ltb_ℤ (pos 0) need.delta_minor

abbrev pub is_sale : ShadowInstrumentDecision → Bool
is_sale need = ltb_ℤ need.delta_minor (pos 0)

-- What an asset class asks for.
unfoldable pub asset_candidate : ShadowAssetDecision → CashPriorityCandidate
asset_candidate asset = record {
  id = asset.id;
  requested_minor =
      sum_ℤ (λ (need : ShadowInstrumentDecision). max_big_int (pos 0) need.delta_minor)
        asset.instruments;
}

-- The candidates of the first allocation: securities that ask for something.
abbrev pub asset_candidates : List ShadowAssetDecision → List CashPriorityCandidate
asset_candidates assets = filter (λ c. ltb_ℤ (pos 0) c.requested_minor) (map asset_candidate assets)

unfoldable pub instrument_candidate : ShadowInstrumentDecision → CashPriorityCandidate
instrument_candidate need = record { id = need.instrument_key; requested_minor = need.delta_minor }

-- The body of the loop over the allocations of an asset class.
unfoldable pub round_purchase :
    ℤ → List ShadowInstrumentDecision → CashAllocation → Result PlanStop RoundedNeed
round_purchase minimum needs allocation = do
  need ← get_required allocation.id (find (λ need. text_eq need.instrument_key allocation.id) needs)
  rounded ← attempt (round_kr_order (purchase_of need allocation.allocated_minor minimum))
  ok (record { need = need; funded_minor = allocation.allocated_minor; rounded = rounded })

-- The purchases of an asset class with this cash.
abbrev pub fund_needs : ℤ → ℤ → List ShadowInstrumentDecision → Result PlanStop (List RoundedNeed)
fund_needs minimum funds [] = ok []
fund_needs minimum funds (need ∷ needs) = do
  funding ← attempt (allocate_spendable_cash (map instrument_candidate (need ∷ needs)) funds)
  map_ok (round_purchase minimum (need ∷ needs)) funding.allocations

-- `map.get(key) ?? 0n`
abbrev pub or_zero_minor : Option ℤ → ℤ
or_zero_minor none = pos 0
or_zero_minor (some n) = n

-- The loop over the asset classes of securities.
unfoldable pub fund_assets :
    ℤ → TextMap ℤ → List ShadowAssetDecision → Result PlanStop (List RoundedNeed)
fund_assets minimum funding [] = ok []
fund_assets minimum funding (asset ∷ assets) = do
  here ←
      fund_needs minimum (or_zero_minor (map_get asset.id funding))
        (filter is_purchase asset.instruments)
  rest ← fund_assets minimum funding assets
  ok (here ++ rest)

-- The deferred rest of a need, if there is one.
abbrev pub defer_rest :
    ShadowInstrumentDecision → BuyFunding → Result PlanStop (List ShadowDeferredBuyNeed)
defer_rest need funding =
    if ltb_ℤ (executable_notional funding.rounded) need.delta_minor
    then create_deferred_buy_need need funding.funded_minor funding.rounded
        (deferred_buy_reasons need.delta_minor funding) true
      >>= (λ deferred. ok (deferred ∷ []))
    else ok []

-- The loop over the purchases behind the funding.
unfoldable pub defer_rests :
    TextMap BuyFunding
    → List ShadowInstrumentDecision
    → Result PlanStop (List ShadowDeferredBuyNeed)
defer_rests funding [] = ok []
defer_rests funding (need ∷ needs) = do
  found ← get_required need.instrument_key (map_get need.instrument_key funding)
  here ← defer_rest need found
  rest ← defer_rests funding needs
  ok (here ++ rest)

-- An entry of `fundingByInstrument`.
unfoldable pub funding_entry : RoundedNeed → Text × BuyFunding
funding_entry item =
    (item.need.instrument_key, record { funded_minor = item.funded_minor; rounded = item.rounded })

unfoldable pub buy_phase :
    ℤ → ℤ → List ShadowAssetDecision → List ShadowInstrumentDecision → Result PlanStop Phase
buy_phase minimum spendable assets buys = do
  let securities = filter (λ asset. not (is_cash asset.kind)) assets
  cash ← attempt (allocate_spendable_cash (asset_candidates securities) spendable)
  rounded ←
      fund_assets minimum (map_of (map (λ a. (a.id, a.allocated_minor)) cash.allocations))
        securities
  deferred ← defer_rests (map_of (map funding_entry rounded)) buys
  ok (record { orders = orders_of rounded; deferred = deferred })
