-- ===== src/Application/ExecutionGate/Conditions.antt =====
-- What each check of the gate asks for.
use portfolio_rebalancer.Prelude.{
  ◌<◌, ℤ, ◌≤ℤ◌, Text, text_eq_iff, big_int, Bool, true, false, not, List, [], ◌∷◌, length, find,
  All, find_iff, All-map, Option, none, some, Option-cases, inl, inr, Result, ok, err, arith, ◌≡◌,
  refl, ◌↔◌,
}
use portfolio_rebalancer.Application.OrderState.{is_terminal, OrderState}
use portfolio_rebalancer.Application.RiskLimits.Trade.Allowed.{
  IsWithinTradeLimits, trade_limits_iff,
}
use portfolio_rebalancer.Application.RiskLimits.Exposure.Concentration.{
  IsDiversified, exposure_limits_iff,
}
use portfolio_rebalancer.Application.ExecutionGate.{
  ExecutionMode, paper, live, ExecutionOperationalConfig, PlannedExecutionOrder,
  ExecutionPlanIdentity, CurrentExecutionIdentity, ExistingOrderSummary, ExecutionRiskCheck,
  ExecutionRiskGateInput, GateError, is_passed, CheckCode,
}
use portfolio_rebalancer.Application.ExecutionGate.Checks.{
  same_mode, pass_or_block, to_big_int, is_absent, is_below, evaluate_executable_order_set,
  evaluate_plan_identity, is_unresolved, evaluate_existing_orders, trade_input,
  evaluate_general_trade_limits, exposure_input, evaluate_projected_exposure,
}

-- A check that is made and passed.
abbrev pub passes : Result GateError ExecutionRiskCheck → Bool
passes (err e) = false
passes (ok check) = is_passed check

pub passed_iff :
    (condition : Bool) (passed_code blocked_code : CheckCode) (subject : Option Text)
    → is_passed (pass_or_block condition passed_code blocked_code subject) ≡ condition
passed_iff true passed_code blocked_code subject = refl
passed_iff false passed_code blocked_code subject = refl

pub same_mode_iff : (a b : ExecutionMode) → (same_mode a b ≡ true) ↔ (a ≡ b)
same_mode_iff paper paper = (λ h. refl, λ h. refl)
same_mode_iff live live = (λ h. refl, λ h. refl)
same_mode_iff paper live = ground arith
same_mode_iff live paper = ground arith

-- There are orders, and each reaches the minimum.
abbrev pub IsOrderSet : List PlannedExecutionOrder → Option ℤ → Type 0
IsOrderSet orders none = ⊥
IsOrderSet orders (some minimum) =
    (0 < length orders) × All (λ order. minimum ≤ℤ order.trade.gross_notional_minor) orders

pub absent_iff {ℓ} : {A : Type ℓ} (o : Option A) → (is_absent o ≡ true) ↔ (o ≡ none)
absent_iff none = (λ h. refl, λ h. refl)
absent_iff (some x) = ground arith

no_orders : (minimum : Option ℤ) → ¬ IsOrderSet [] minimum
no_orders none h = h
no_orders (some minimum) h = ground (arith, h.0)

reaching_iff :
    (minimum : ℤ) (orders : List PlannedExecutionOrder)
    → (is_absent (find (is_below minimum) orders) ≡ true)
      ↔ All (λ order. minimum ≤ℤ order.trade.gross_notional_minor) orders
reaching_iff minimum orders =
    let below = is_below minimum in
    (
      λ h.
          All-map (λ order e. ground (arith, e)) orders
            ((find_iff below orders).0 ((absent_iff (find below orders)).0 h)),
      λ h.
          (absent_iff (find below orders)).1
            ((find_iff below orders).1 (All-map (λ order e. ground (arith, e)) orders h)),
    )

pub order_set_iff :
    (orders : List PlannedExecutionOrder) (config : ExecutionOperationalConfig)
    → (passes (evaluate_executable_order_set orders config) ≡ true)
      ↔ IsOrderSet orders (big_int config.limits.minimum_order_gross_minor)
unfolding evaluate_executable_order_set to_big_int
order_set_iff [] config = (
  λ h. absurd (ground arith),
  λ h. absurd (no_orders (big_int config.limits.minimum_order_gross_minor) h),
)
order_set_iff (first ∷ others) config =
    elim (Option-cases (big_int config.limits.minimum_order_gross_minor)) [
      | inl e ↦ rw e (λ h. absurd (ground arith), λ h. absurd h)
      | inr (minimum, e) ↦ rw e (
        λ h. (omega arith, (reaching_iff minimum (first ∷ others)).0 (ground (arith, h))),
        λ h. ground (arith, (reaching_iff minimum (first ∷ others)).1 h.1),
      )
    ]

-- The plan was made from the current snapshot and the current targets.
abbrev pub IsCurrent : ExecutionPlanIdentity → CurrentExecutionIdentity → Type 0
IsCurrent plan current =
    (plan.snapshot_id ≡ current.snapshot_id)
    × (plan.snapshot_digest ≡ current.snapshot_digest)
    × (plan.target_config_version_id ≡ current.target_config_version_id)
    × (plan.target_config_content_hash ≡ current.target_config_content_hash)

pub identity_iff :
    (plan : ExecutionPlanIdentity) (current : CurrentExecutionIdentity)
    → (is_passed (evaluate_plan_identity plan current) ≡ true) ↔ IsCurrent plan current
unfolding evaluate_plan_identity
identity_iff plan current = ground (
  arith,
  text_eq_iff plan.snapshot_id current.snapshot_id,
  text_eq_iff plan.snapshot_digest current.snapshot_digest,
  text_eq_iff plan.target_config_version_id current.target_config_version_id,
  text_eq_iff plan.target_config_content_hash current.target_config_content_hash,
)

resolved-IsTerminal : (s : OrderState) → is_unresolved s ≡ not (is_terminal s)
resolved-IsTerminal s = ground arith

pub existing_iff :
    (existing : List ExistingOrderSummary)
    → (is_passed (evaluate_existing_orders existing) ≡ true)
      ↔ All (λ order. is_terminal order.state ≡ true) existing
unfolding evaluate_existing_orders
existing_iff existing = (
  λ h.
      let none_found : is_absent (find (λ order. is_unresolved order.state) existing) ≡ true =
        ground (arith, h) in
      All-map (λ order e. ground (arith, e, resolved-IsTerminal order.state)) existing
        ((find_iff (λ (order : ExistingOrderSummary). is_unresolved order.state) existing).0
          ((absent_iff (find (λ order. is_unresolved order.state) existing)).0 none_found)),
  λ h.
      let none_found =
        (find_iff (λ (order : ExistingOrderSummary). is_unresolved order.state) existing).1
          (All-map (λ order e. ground (arith, e, resolved-IsTerminal order.state)) existing h) in
      rw none_found refl,
)

-- Both limits are numbers, and the orders are within them.
abbrev pub IsLimited :
    ExecutionRiskGateInput → ExecutionOperationalConfig → Option ℤ → Option ℤ → Type 0
IsLimited input config none max_daily = ⊥
IsLimited input config (some max_single) none = ⊥
IsLimited input config (some max_single) (some max_daily) =
    IsWithinTradeLimits (trade_input input config max_single max_daily)

pub general_limits_iff :
    (input : ExecutionRiskGateInput) (config : ExecutionOperationalConfig)
    → (passes (evaluate_general_trade_limits input config) ≡ true)
      ↔ IsLimited input config
          (big_int config.limits.max_single_order_gross_minor)
          (big_int config.limits.max_daily_gross_minor)
unfolding evaluate_general_trade_limits to_big_int
general_limits_iff input config =
    elim (Option-cases (big_int config.limits.max_single_order_gross_minor)) [
      | inl e ↦ rw e (λ h. absurd (ground arith), λ h. absurd h)
      | inr (max_single, e) ↦ elim (Option-cases (big_int config.limits.max_daily_gross_minor)) [
        | inl f ↦ rw (e, f) (λ h. absurd (ground arith), λ h. absurd h)
        | inr (max_daily, f) ↦
            rw (e, f)
              (ground (arith, trade_limits_iff (trade_input input config max_single max_daily)))
      ]
    ]

pub exposure_iff :
    (input : ExecutionRiskGateInput) (config : ExecutionOperationalConfig)
    → (is_passed (evaluate_projected_exposure input config) ≡ true)
      ↔ IsDiversified (exposure_input input config)
unfolding evaluate_projected_exposure
exposure_iff input config = ground (arith, exposure_limits_iff (exposure_input input config))
