-- ===== src/Application/ExecutionGate/Decided.antt =====
-- When the gate lets a plan be executed.
use portfolio_rebalancer.Prelude.{
  big_int, Bool, true, false, List, [], ◌∷◌, ◌++◌, all, All, none, Result, ok, err, ◌>>=◌, arith,
  ◌≡◌, refl, ◌↔◌,
}
use portfolio_rebalancer.Application.OrderState.{is_terminal}
use portfolio_rebalancer.Application.RiskLimits.Exposure.Concentration.{IsDiversified}
use portfolio_rebalancer.Application.ExecutionGate.{
  ExecutionMode, paper, live, ExecutionOperationalConfig, ValidatedExecutionOperationalConfig,
  valid, invalid, ExecutionRiskCheck, ExecutionRiskGateDecision, ExecutionRiskGateInput, GateError,
  is_passed, operational_config_invalid,
}
use portfolio_rebalancer.Application.ExecutionGate.Checks.{
  same_mode, blocked, evaluate_executable_order_set, evaluate_plan_identity,
  evaluate_existing_orders, evaluate_general_trade_limits, exposure_input,
  evaluate_projected_exposure,
}
use portfolio_rebalancer.Application.ExecutionGate.Live.{
  evaluate_account, evaluate_live_order_shape, evaluate_live_trade_limits, evaluate_tiny_live_limit,
  evaluate_manual_approval,
}
use portfolio_rebalancer.Application.ExecutionGate.Gate.{
  decision, general_checks, live_checks, mode_checks, evaluate_execution_risk_gate,
}
use portfolio_rebalancer.Application.ExecutionGate.Conditions.{
  passes, same_mode_iff, IsOrderSet, order_set_iff, IsCurrent, identity_iff, existing_iff,
  IsLimited, general_limits_iff, exposure_iff,
}
use portfolio_rebalancer.Application.ExecutionGate.LiveConditions.{
  IsListed, account_iff, IsLiveShape, shapes_iff, live_limits_iff, IsTiny, IsTiny-iff,
  IsManuallyApproved, approval_iff,
}

-- What every mode asks for.
pub record IsSafe (input : ExecutionRiskGateInput) (config : ExecutionOperationalConfig)
    : Type 0 where
  pub mode : config.mode ≡ input.requested_mode
  pub released : config.kill_switch ≡ false
  pub plan_mode : input.plan.mode ≡ input.requested_mode
  pub orders : IsOrderSet input.plan.orders (big_int config.limits.minimum_order_gross_minor)
  pub current : IsCurrent input.plan input.current_identity
  pub settled : All (λ order. is_terminal order.state ≡ true) input.existing_orders
  pub limited :
      IsLimited input config
        (big_int config.limits.max_single_order_gross_minor)
        (big_int config.limits.max_daily_gross_minor)
  pub diversified : IsDiversified (exposure_input input config)

-- What LIVE asks for besides.
pub record IsSafeLive (input : ExecutionRiskGateInput) (config : ExecutionOperationalConfig)
    : Type 0 where
  pub enabled : config.live.enabled ≡ true
  pub listed : IsListed input config
  pub shaped : All IsLiveShape input.plan.orders
  pub limited :
      IsLimited input config
        (big_int config.live.max_single_order_gross_minor)
        (big_int config.live.max_daily_gross_minor)
  pub tiny : IsTiny input.plan.orders (big_int config.live.tiny_live_max_gross_minor)
  pub approved : IsManuallyApproved input config input.manual_approval

abbrev pub IsSafeIn : ExecutionMode → ExecutionRiskGateInput → ExecutionOperationalConfig → Type 0
IsSafeIn paper input config = Unit
IsSafeIn live input config = IsSafeLive input config

abbrev pub IsExecutable : ExecutionRiskGateInput → ValidatedExecutionOperationalConfig → Type 0
IsExecutable input invalid = ⊥
IsExecutable input (valid config) = IsSafe input config × IsSafeIn input.requested_mode input config

-- The gate returns a decision, and it is to execute.
abbrev pub grants : Result GateError ExecutionRiskGateDecision → Bool
grants (err e) = false
grants (ok d) = d.can_execute

abbrev all_passed : Result GateError (List ExecutionRiskCheck) → Bool
all_passed (err e) = false
all_passed (ok checks) = all is_passed checks

general_iff :
    (input : ExecutionRiskGateInput) (config : ExecutionOperationalConfig)
    → (all_passed (general_checks input config) ≡ true) ↔ (
        (same_mode config.mode input.requested_mode ≡ true)
        × (config.kill_switch ≡ false)
        × (same_mode input.plan.mode input.requested_mode ≡ true)
        × (passes (evaluate_executable_order_set input.plan.orders config) ≡ true)
        × (is_passed (evaluate_plan_identity input.plan input.current_identity) ≡ true)
        × (is_passed (evaluate_existing_orders input.existing_orders) ≡ true)
        × (passes (evaluate_general_trade_limits input config) ≡ true)
        × (is_passed (evaluate_projected_exposure input config) ≡ true))
unfolding general_checks
general_iff input config = ground arith

live_iff :
    (input : ExecutionRiskGateInput) (config : ExecutionOperationalConfig)
    → (all_passed (live_checks input config) ≡ true) ↔ (
        (config.live.enabled ≡ true)
        × (is_passed (evaluate_account input config) ≡ true)
        × (is_passed (evaluate_live_order_shape input.plan.orders) ≡ true)
        × (passes (evaluate_live_trade_limits input config) ≡ true)
        × (passes (evaluate_tiny_live_limit input.plan.orders config) ≡ true)
        × (is_passed (evaluate_manual_approval input config) ≡ true))
unfolding live_checks
live_iff input config = ground arith

IsSafe-iff :
    (input : ExecutionRiskGateInput) (config : ExecutionOperationalConfig)
    → (all_passed (general_checks input config) ≡ true) ↔ IsSafe input config
IsSafe-iff input config = (
  λ h.
      let (mode, released, plan_mode, orders, current, settled, limited, diversified) =
        (general_iff input config).0 h in
      record {
        mode = (same_mode_iff config.mode input.requested_mode).0 mode;
        released = released;
        plan_mode = (same_mode_iff input.plan.mode input.requested_mode).0 plan_mode;
        orders = (order_set_iff input.plan.orders config).0 orders;
        current = (identity_iff input.plan input.current_identity).0 current;
        settled = (existing_iff input.existing_orders).0 settled;
        limited = (general_limits_iff input config).0 limited;
        diversified = (exposure_iff input config).0 diversified;
      },
  λ v. (general_iff input config).1 (
    (same_mode_iff config.mode input.requested_mode).1 v.mode,
    v.released,
    (same_mode_iff input.plan.mode input.requested_mode).1 v.plan_mode,
    (order_set_iff input.plan.orders config).1 v.orders,
    (identity_iff input.plan input.current_identity).1 v.current,
    (existing_iff input.existing_orders).1 v.settled,
    (general_limits_iff input config).1 v.limited,
    (exposure_iff input config).1 v.diversified,
  ),
)

IsSafeLive-iff :
    (input : ExecutionRiskGateInput) (config : ExecutionOperationalConfig)
    → (all_passed (live_checks input config) ≡ true) ↔ IsSafeLive input config
IsSafeLive-iff input config = (
  λ h.
      let (enabled, listed, shaped, limited, tiny, approved) = (live_iff input config).0 h in
      record {
        enabled = enabled;
        listed = (account_iff input config).0 listed;
        shaped = (shapes_iff input.plan.orders).0 shaped;
        limited = (live_limits_iff input config).0 limited;
        tiny = (IsTiny-iff input.plan.orders config).0 tiny;
        approved = (approval_iff input config).0 approved;
      },
  λ v. (live_iff input config).1 (
    v.enabled,
    (account_iff input config).1 v.listed,
    (shapes_iff input.plan.orders).1 v.shaped,
    (live_limits_iff input config).1 v.limited,
    (IsTiny-iff input.plan.orders config).1 v.tiny,
    (approval_iff input config).1 v.approved,
  ),
)

mode_iff :
    (mode : ExecutionMode) (input : ExecutionRiskGateInput) (config : ExecutionOperationalConfig)
    → (all_passed (mode_checks mode input config) ≡ true) ↔ IsSafeIn mode input config
mode_iff paper input config = (λ h. tt, λ h. refl)
mode_iff live input config = IsSafeLive-iff input config

all-append :
    (xs ys : List ExecutionRiskCheck)
    → (all is_passed (xs ++ ys) ≡ true) ↔ ((all is_passed xs ≡ true) × (all is_passed ys ≡ true))
all-append [] ys = ground arith
all-append (x ∷ xs) ys = ground (arith, all-append xs ys)

-- The decision on the checks of both lists.
abbrev joined :
    Result GateError (List ExecutionRiskCheck)
    → Result GateError (List ExecutionRiskCheck)
    → Result GateError ExecutionRiskGateDecision
joined general more = general >>= (λ xs. more >>= (λ ys. ok (decision (xs ++ ys))))

grants-joined :
    (general more : Result GateError (List ExecutionRiskCheck))
    → (grants (joined general more) ≡ true)
      ↔ ((all_passed general ≡ true) × (all_passed more ≡ true))
unfolding decision
grants-joined (err e) more = ground arith
grants-joined (ok xs) (err e) = ground arith
grants-joined (ok xs) (ok ys) = all-append xs ys

IsExecutable-iff :
    (input : ExecutionRiskGateInput) (config : ValidatedExecutionOperationalConfig)
    → (grants (elim config [
      | invalid ↦ ok (decision (blocked operational_config_invalid none ∷ []))
      | valid c ↦ joined (general_checks input c) (mode_checks input.requested_mode input c)
    ])
        ≡ true)
      ↔ IsExecutable input config
unfolding decision
IsExecutable-iff input invalid = (λ h. absurd (ground arith), λ h. absurd h)
IsExecutable-iff input (valid config) =
    let parts =
      grants-joined (general_checks input config) (mode_checks input.requested_mode input config) in
    let general = IsSafe-iff input config in
    let more = mode_iff input.requested_mode input config in
    (λ h. (general.0 (parts.0 h).0, more.0 (parts.0 h).1), λ v. parts.1 (general.1 v.0, more.1 v.1))

-- The gate returns the decision to execute a plan exactly when the configuration is valid; its mode and
-- the plan's are the requested one; the kill switch is released; the plan has orders, each of the
-- minimum amount; it was made from the current snapshot and targets; every existing order is filled,
-- canceled or rejected; and the limits on trading and on exposure hold. For LIVE, LIVE is enabled, the
-- account is on the list, every order is a Korean limit order for the day, the limits of LIVE on
-- trading and on the whole plan hold, and there is an approval of this plan for this account that has
-- not been used, has the expected digest and has not expired. In every mode the limits that are used
-- are texts of integers.
pub gate_iff :
    (input : ExecutionRiskGateInput)
    → (grants (evaluate_execution_risk_gate input) ≡ true)
      ↔ IsExecutable input input.operational_config
unfolding evaluate_execution_risk_gate
gate_iff input = IsExecutable-iff input input.operational_config
