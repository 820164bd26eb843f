-- ===== src/Application/ExecutionGate/Gate.antt =====
-- packages/application/src/execution-risk-gate.ts, `evaluateExecutionRiskGate`.
use portfolio_rebalancer.Prelude.{
  Text, text, not, List, [], ◌∷◌, ◌++◌, all, none, some, Result, ok, ◌>>=◌, if◌then◌else◌,
}
use portfolio_rebalancer.Application.ExecutionGate.{
  ExecutionMode, paper, live, ExecutionOperationalConfig, valid, invalid,
  operational_config_invalid, execution_mode_matched, execution_mode_mismatch, kill_switch_released,
  kill_switch_active, plan_mode_matched, plan_mode_mismatch, live_explicitly_enabled,
  live_not_enabled, ExecutionRiskCheck, ready_to_execute, blocked_from_executing,
  ExecutionRiskGateDecision, ExecutionRiskGateInput, GateError, is_passed,
}
use portfolio_rebalancer.Application.ExecutionGate.Checks.{
  same_mode, pass_or_block, blocked, evaluate_executable_order_set, evaluate_plan_identity,
  evaluate_existing_orders, evaluate_general_trade_limits, evaluate_projected_exposure,
}
use portfolio_rebalancer.Application.ExecutionGate.Live.{
  evaluate_account, evaluate_live_order_shape, evaluate_live_trade_limits, evaluate_tiny_live_limit,
  evaluate_manual_approval,
}

unfoldable pub decision : List ExecutionRiskCheck → ExecutionRiskGateDecision
decision checks =
    let can_execute = all is_passed checks in
    record {
      status = if can_execute then ready_to_execute else blocked_from_executing;
      can_execute = can_execute;
      checks = checks;
    }

abbrev mode_name : ExecutionMode → Text
mode_name paper = text "PAPER"
mode_name live = text "LIVE"

-- The checks of every mode, in their order.
unfoldable pub general_checks :
    ExecutionRiskGateInput → ExecutionOperationalConfig → Result GateError (List ExecutionRiskCheck)
general_checks input config = do
  order_set ← evaluate_executable_order_set input.plan.orders config
  trade_limits ← evaluate_general_trade_limits input config
  ok (
      pass_or_block (same_mode config.mode input.requested_mode) execution_mode_matched
        execution_mode_mismatch (some (mode_name input.requested_mode))
      ∷ pass_or_block (not config.kill_switch) kill_switch_released kill_switch_active none
      ∷ pass_or_block (same_mode input.plan.mode input.requested_mode) plan_mode_matched
          plan_mode_mismatch (some input.plan.plan_id)
      ∷ order_set
      ∷ evaluate_plan_identity input.plan input.current_identity
      ∷ evaluate_existing_orders input.existing_orders
      ∷ trade_limits
      ∷ evaluate_projected_exposure input config
      ∷ [])

-- The checks of LIVE, in their order.
unfoldable pub live_checks :
    ExecutionRiskGateInput → ExecutionOperationalConfig → Result GateError (List ExecutionRiskCheck)
live_checks input config = do
  trade_limits ← evaluate_live_trade_limits input config
  tiny_limit ← evaluate_tiny_live_limit input.plan.orders config
  ok (
      pass_or_block config.live.enabled live_explicitly_enabled live_not_enabled none
      ∷ evaluate_account input config
      ∷ evaluate_live_order_shape input.plan.orders
      ∷ trade_limits
      ∷ tiny_limit
      ∷ evaluate_manual_approval input config
      ∷ [])

-- The checks that the requested mode adds.
abbrev pub mode_checks :
    ExecutionMode
    → ExecutionRiskGateInput
    → ExecutionOperationalConfig
    → Result GateError (List ExecutionRiskCheck)
mode_checks paper input config = ok []
mode_checks live input config = live_checks input config

unfoldable pub evaluate_execution_risk_gate :
    ExecutionRiskGateInput → Result GateError ExecutionRiskGateDecision
evaluate_execution_risk_gate input = elim input.operational_config [
  | invalid ↦ ok (decision (blocked operational_config_invalid none ∷ []))
  | valid config ↦ general_checks input config >>= (λ general.
      mode_checks input.requested_mode input config >>= (λ more. ok (decision (general ++ more))))
]
