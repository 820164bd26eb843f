-- ===== src/Application/PaperExecutor/Step.antt =====
-- packages/application/src/paper-order-executor.ts, simulatePaperLimitDayOrder and the results that it
-- builds.
use portfolio_rebalancer.Prelude.{
  ℤ, pos, ◌+ℤ◌, ◌-ℤ◌, ltb_ℤ, eq_ℤ, sum_ℤ, true, false, not, Option, none, some, List, [], ◌∷◌,
  if◌then◌else◌, Result, ok, err,
}
use portfolio_rebalancer.Domain.OrderRounding.{Side, buy, sell}
use portfolio_rebalancer.Application.OrderState.{OrderState}
use portfolio_rebalancer.Application.Commission.{
  CommissionInput, CommissionEstimate, CommissionEstimateIssue, estimate_commission,
}
use portfolio_rebalancer.Application.PaperExecutor.{
  PaperExecutionDecision, filled, partial_filled, no_fill, blocked, PaperExecutionReasonCode,
  limit_fully_filled, limit_partially_filled, limit_not_crossed, fillable_liquidity_insufficient,
  commission_unverified, PaperSourceRawState, paper_limit_full_fill, paper_limit_partial_fill,
  paper_limit_not_crossed, paper_liquidity_insufficient, paper_execution_blocked,
  PaperLimitExecutionInput, PaperLevelExecution, PaperExecutionFill, PaperExecutionEvidence,
  RawState, PaperOrderExecutionResult, ParsedBookLevel, ValidatedEvidence, FillSimulation,
}
use portfolio_rebalancer.Application.PaperExecutor.Evidence.{
  validate_input, validate_evidence, Refusal, refused, evaluation_time_unreadable,
}
use portfolio_rebalancer.Application.PaperExecutor.Book.{is_within, simulate_book_fill}

abbrev pub empty_fill : ℤ → PaperExecutionFill
empty_fill remaining = record {
  quantity = pos 0;
  remaining_quantity = remaining;
  gross_notional_minor = pos 0;
  commission_minor = pos 0;
  net_cash_delta_minor = pos 0;
  executions = [];
}

-- `read?.value.observedAt ?? null`, and the like.
abbrev pub or_null : {A B : Type 0} → Option A → (A → Option B) → Option B
or_null none part = none
or_null (some a) part = part a

-- `createEvidence(input)`
unfoldable pub bare_evidence : PaperLimitExecutionInput → PaperExecutionEvidence
bare_evidence input = record {
  quote_observed_at = or_null input.quote (λ read. read.value.observed_at);
  order_book_observed_at = or_null input.order_book (λ read. read.value.observed_at);
  quote_price_minor = none;
  best_relevant_book_price_minor = none;
  qualifying_book_quantity = pos 0;
  simulated_available_quantity = pos 0;
  quote_audit_reference = or_null input.quote (λ read. read.metadata.audit_reference);
  order_book_audit_reference = or_null input.order_book (λ read. read.metadata.audit_reference);
}

-- `relevantLevels[0]?.priceMinor ?? null`
abbrev pub best_price : List ParsedBookLevel → Option ℤ
best_price [] = none
best_price (level ∷ levels) = some level.price_minor

-- `createEvidence(input, values)`, with the values that the step gives.
unfoldable pub create_evidence :
    PaperLimitExecutionInput → ValidatedEvidence → FillSimulation → PaperExecutionEvidence
create_evidence input evidence simulation = record {
  quote_observed_at = some evidence.quote_observed_at;
  order_book_observed_at = some evidence.order_book_observed_at;
  quote_price_minor = some evidence.quote_price_minor;
  best_relevant_book_price_minor = best_price evidence.relevant_levels;
  qualifying_book_quantity = simulation.qualifying_book_quantity;
  simulated_available_quantity = simulation.simulated_available_quantity;
  quote_audit_reference = or_null input.quote (λ read. read.metadata.audit_reference);
  order_book_audit_reference = or_null input.order_book (λ read. read.metadata.audit_reference);
}

unfoldable pub create_raw_state : PaperLimitExecutionInput → PaperSourceRawState → RawState
create_raw_state input value = record {
  value = value;
  quote_operation_id = or_null input.quote (λ read. some read.metadata.operation_id);
  quote_request_id = or_null input.quote (λ read. read.metadata.request_id);
  order_book_operation_id = or_null input.order_book (λ read. some read.metadata.operation_id);
  order_book_request_id = or_null input.order_book (λ read. read.metadata.request_id);
}

-- A result that changes nothing, of noFillResult and blockedResult.
abbrev pub idle_result :
    PaperLimitExecutionInput
    → PaperExecutionDecision
    → PaperExecutionReasonCode
    → PaperSourceRawState
    → PaperExecutionEvidence
    → PaperOrderExecutionResult
idle_result input decision reason raw_state evidence = record {
  logical_order_id = input.order.logical_order_id;
  decision = decision;
  reason_code = reason;
  normalized_transition = record {
    from = input.order.current_state;
    to = input.order.current_state;
    applied = false;
  };
  fill = empty_fill input.order.remaining_quantity;
  evidence = evidence;
  raw_state = create_raw_state input raw_state;
}

unfoldable pub no_fill_result :
    PaperLimitExecutionInput
    → PaperExecutionReasonCode
    → PaperSourceRawState
    → PaperExecutionEvidence
    → PaperOrderExecutionResult
no_fill_result input reason raw_state evidence = idle_result input no_fill reason raw_state evidence

unfoldable pub blocked_result :
    PaperLimitExecutionInput
    → PaperExecutionReasonCode
    → PaperExecutionEvidence
    → PaperOrderExecutionResult
blocked_result input reason evidence =
    idle_result input blocked reason paper_execution_blocked evidence

abbrev pub net_cash_delta : Side → ℤ → ℤ → ℤ
net_cash_delta buy gross commission = pos 0 -ℤ (gross +ℤ commission)
net_cash_delta sell gross commission = gross -ℤ commission

-- The result of a fill with this commission.
unfoldable pub filled_result :
    PaperLimitExecutionInput
    → FillSimulation
    → PaperExecutionEvidence
    → ℤ
    → ℤ
    → PaperOrderExecutionResult
filled_result input simulation evidence gross commission =
    let remaining = input.order.remaining_quantity -ℤ simulation.fill_quantity in
    let fully_filled = eq_ℤ remaining (pos 0) in
    record {
      logical_order_id = input.order.logical_order_id;
      decision = if fully_filled then filled else partial_filled;
      reason_code = if fully_filled then limit_fully_filled else limit_partially_filled;
      normalized_transition = record {
        from = input.order.current_state;
        to = if fully_filled then OrderState.filled else OrderState.partial_filled;
        applied = true;
      };
      fill = record {
        quantity = simulation.fill_quantity;
        remaining_quantity = remaining;
        gross_notional_minor = gross;
        commission_minor = commission;
        net_cash_delta_minor = net_cash_delta input.order.side gross commission;
        executions = simulation.executions;
      };
      evidence = evidence;
      raw_state =
          create_raw_state input
            (if fully_filled then paper_limit_full_fill else paper_limit_partial_fill);
    }

-- `grossNotionalMinor`
unfoldable pub gross_notional : FillSimulation → ℤ
gross_notional simulation =
    sum_ℤ (λ (e : PaperLevelExecution). e.notional_minor) simulation.executions

abbrev pub commission_input : PaperLimitExecutionInput → ℤ → CommissionInput
commission_input input gross = record {
  schedule = input.commission_schedule;
  market_country = input.order.market_country;
  trade_date = input.order.trade_date;
  notional_minor = gross;
}

-- The `try` around the commission, and what follows it.
abbrev pub with_commission :
    PaperLimitExecutionInput
    → FillSimulation
    → PaperExecutionEvidence
    → ℤ
    → Result CommissionEstimateIssue CommissionEstimate
    → PaperOrderExecutionResult
with_commission input simulation evidence gross (err issue) =
    blocked_result input commission_unverified evidence
with_commission input simulation evidence gross (ok estimate) =
    filled_result input simulation evidence gross estimate.commission_minor

-- The step behind the simulated fill.
unfoldable pub conclude :
    PaperLimitExecutionInput → ValidatedEvidence → FillSimulation → PaperOrderExecutionResult
conclude input evidence simulation =
    let result_evidence = create_evidence input evidence simulation in
    if not (is_within input.order.side input.order.limit_price_minor evidence.quote_price_minor)
    then no_fill_result input limit_not_crossed paper_limit_not_crossed result_evidence
    else if eq_ℤ simulation.fill_quantity (pos 0)
    then if ltb_ℤ (pos 0) simulation.qualifying_book_quantity
      then no_fill_result input fillable_liquidity_insufficient paper_liquidity_insufficient
          result_evidence
      else no_fill_result input limit_not_crossed paper_limit_not_crossed result_evidence
    else with_commission input simulation result_evidence (gross_notional simulation)
        (estimate_commission (commission_input input (gross_notional simulation)))

-- What follows validateEvidence; the error is a thrown one.
abbrev pub with_evidence :
    PaperLimitExecutionInput
    → Result Refusal ValidatedEvidence
    → Result Refusal PaperOrderExecutionResult
with_evidence input (err (refused reason)) = ok (blocked_result input reason (bare_evidence input))
with_evidence input (err evaluation_time_unreadable) = err evaluation_time_unreadable
with_evidence input (ok evidence) =
    ok (conclude input evidence (simulate_book_fill input evidence.relevant_levels))

-- What follows validateInput.
abbrev pub with_input :
    PaperLimitExecutionInput
    → Result PaperExecutionReasonCode Unit
    → Result Refusal PaperOrderExecutionResult
with_input input (err reason) = ok (blocked_result input reason (bare_evidence input))
with_input input (ok done) = with_evidence input (validate_evidence input)

unfoldable pub simulate_paper_limit_day_order :
    PaperLimitExecutionInput → Result Refusal PaperOrderExecutionResult
simulate_paper_limit_day_order input = with_input input (validate_input input)
