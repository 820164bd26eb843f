-- ===== src/Lib.antt =====
-- Portfolio rebalancer: the pure core that decides what to trade and whether a trade may be sent.
--
-- The domain package (packages/domain/src) computes on bigint amounts: it evaluates a portfolio against
-- its targets, decides the desired value of each asset, hands out cash, rounds orders to whole shares
-- and projects the weights after the trades. The application package (packages/application/src) guards
-- the execution of the resulting orders: the state machine of an order, the turnover that is reserved
-- for it, the limits on trading and on exposure, and the gate that a plan has to pass. The engine and
-- the web console around them call these functions and keep their results.
--
-- Which file models which part:
--   Prelude and its children: bigint as integers over the native numbers (Int), strings as UTF-16 code
--     units with trim, comparison and Set (Strings, Keys), BigInt(text) (Numerals), decimal texts
--     (Decimals, Digits), Date.parse of a text with an offset (Dates), Array.sort (Sort),
--     Map (Maps), thrown errors as results (Results), sums and rounding (Sums), lists (Lists).
--   Domain: packages/domain/src, one constructor of DomainError for each throw.
--     Domain/Allocation: allocation.ts; calculateAllocationSnapshot is calculate_allocation_snapshot,
--       isOutsideAllocationBand is is_outside_allocation_band.
--     Domain/Shares: the largest-remainder method that rebalance.ts and within-asset-allocation.ts
--       both write out (bonusIds, compareBigIntDescending).
--     Domain/Rebalance: rebalance.ts, calculateRebalanceTargets and its helpers under their names.
--     Domain/Cash: rebalance.ts, allocateSpendableCash; its loop is fill.
--     Domain/OrderRounding: rebalance.ts, roundKrOrder.
--     Domain/Projection: rebalance.ts, projectAllocationAfterRoundedTrades.
--     Domain/Band: allocation-band.ts and weight.ts.
--     Domain/WithinAsset: within-asset-allocation.ts.
--     Domain/Decimal, Domain/Money, Domain/Quantity: decimal.ts, money.ts and quantity.ts, one constructor
--       of DecimalError for each throw; toScaledInteger is to_scaled_integer, fromScaledInteger is
--       from_scaled_integer.
--   Broker: packages/broker/src/models.ts, what a broker returns about prices.
--   Application: packages/application/src.
--     Application/OrderState: order-state.ts; evaluateOrderTransition is evaluate_order_transition,
--       evaluateAmbiguousOrderRecovery is evaluate_ambiguous_order_recovery. Graph has its diagram,
--       Lifecycle the histories of recorded events, Recovery the recovery of ambiguous orders.
--     Application/OrderReservation: order-reservation.ts.
--     Application/RiskLimits: risk-limits.ts; Trade is evaluateTradeNotionalLimits, Exposure is
--       evaluateExposureLimits.
--     Application/ExecutionGate: execution-risk-gate.ts; Checks and Live have its checks, Gate has
--       evaluateExecutionRiskGate; Conditions and LiveConditions say what each check asks for,
--       Decided and Throws when it grants and when it throws.
--     Application/Commission: commission.ts; estimateCommission is estimate_commission, with the types
--       of its schedule from packages/broker/src/models.ts. Calendar, Rates and Periods describe its dates,
--       rates and periods, Covered and Returns what it gives and when.
--     Application/PaperExecutor: paper-order-executor.ts. Evidence has validateInput, validateEvidence and
--       validateEvidenceTime, Book simulateBookFill (its loop is take_levels), Step
--       simulatePaperLimitDayOrder as simulate_paper_limit_day_order; Fill, Valid, Outcome and Replay say
--       what a step gives. Its result feeds Application/OrderState, its cash Application/Commission.
--     Application/PriceMovement: price-movement.ts; evaluatePriceMovement is evaluate_price_movement,
--       whose argument stands for Date.parse.
--     Application/ShadowPlan: shadow-plan.ts; createShadowRebalancePlan is create_shadow_rebalance_plan.
--       Normalize has validateAndNormalizeInput, Instruments allocateDesiredInstrumentValues, Orders the
--       two phases, Plan the plan, which calls Domain/Rebalance, Domain/Cash, Domain/OrderRounding and
--       Domain/Projection; Rounds, Funding, Spending, Phases and Safe say what a plan may order.
--
-- State: none of these functions keeps any; each is a function of its arguments, and what it throws is
-- a result. An interface that extends another has the other as a field where that is shorter (an
-- order of a plan has its planned trade, a decision its asset, a projection's input its asset).
--
-- Bounds and fuel: bigint has no bounds, and the integers of the model have none; the one bound of the
-- source, the signed 64-bit product of a reservation, is written out. Every loop is a recursion on
-- a list, so no fuel is used. A date is the number of its getTime(), or none where that is NaN.
-- A number of fraction digits and the numbers of a freshness policy are integers.
--
-- Not modelled: the Korean texts of messages; the lower case of letters beyond ASCII; the numbers of
-- the operational configuration as doubles (they are integers, which its schema demands, so the
-- RangeError of BigInt on a number that is none does not arise); the engine,
-- the web console, the database and the broker adapters, which are input and output around this core;
-- and the other files of packages/application/src, among them the cancellation gate, the market
-- readiness, and the canonical text and hash of a shadow plan.
pub mod Prelude
pub mod Domain
pub mod Broker
pub mod Application
