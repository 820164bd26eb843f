-- ===== src/Application/PaperExecutor/Outcome.antt =====
-- What a step of the replay gives: it changes nothing, or it fills a part of the order.
use portfolio_rebalancer.Prelude.{
  ℤ, pos, ltb_ℤ, eq_ℤ, Bool-cases, true, false, Result, ok, err, ◌≡◌, refl, inl, inr,
}
use portfolio_rebalancer.Application.Commission.{
  CommissionEstimate, CommissionEstimateIssue, estimate_commission,
}
use portfolio_rebalancer.Application.PaperExecutor.{
  PaperExecutionDecision, PaperExecutionReasonCode, PaperSourceRawState, PaperExecutionEvidence,
  PaperLimitExecutionInput, PaperOrderExecutionResult, ValidatedEvidence, limit_not_crossed,
  fillable_liquidity_insufficient, paper_limit_not_crossed, paper_liquidity_insufficient,
  paper_execution_blocked, commission_unverified, no_fill, blocked,
}
use portfolio_rebalancer.Application.PaperExecutor.Evidence.{
  validate_input, validate_evidence, Refusal, refused, evaluation_time_unreadable,
}
use portfolio_rebalancer.Application.PaperExecutor.Book.{is_within, simulate_book_fill}
use portfolio_rebalancer.Application.PaperExecutor.Step.{
  bare_evidence, create_evidence, idle_result, no_fill_result, blocked_result, filled_result,
  gross_notional, commission_input, with_commission, conclude, with_evidence, with_input,
  simulate_paper_limit_day_order,
}
use portfolio_rebalancer.Application.PaperExecutor.Valid.{
  IsValid, validate_input-IsValid, IsEvidence, Checked, validate_evidence-Checked,
}

-- A fill that the step applies.
pub record IsApplied (input : PaperLimitExecutionInput) (evidence : ValidatedEvidence)
    : Type 0 where
  pub valid : IsValid input
  pub evident : IsEvidence input evidence
  pub quoted :
      is_within input.order.side input.order.limit_price_minor evidence.quote_price_minor ≡ true
  pub some_fill :
      eq_ℤ (simulate_book_fill input evidence.relevant_levels).fill_quantity (pos 0) ≡ false

pub data IsOutcome (input : PaperLimitExecutionInput) : PaperOrderExecutionResult → Type 0 where
  idle :
      (decision : PaperExecutionDecision) (reason : PaperExecutionReasonCode)
      (raw_state : PaperSourceRawState) (evidence : PaperExecutionEvidence)
      → IsOutcome input (idle_result input decision reason raw_state evidence)
  applied :
      (evidence : ValidatedEvidence) (commission : ℤ)
      → IsApplied input evidence
      → IsOutcome input (
          filled_result input
            (simulate_book_fill input evidence.relevant_levels)
            (create_evidence input evidence (simulate_book_fill input evidence.relevant_levels))
            (gross_notional (simulate_book_fill input evidence.relevant_levels))
            commission)

with_commission-IsOutcome :
    (input : PaperLimitExecutionInput) (evidence : ValidatedEvidence)
    (estimate : Result CommissionEstimateIssue CommissionEstimate)
    → IsApplied input evidence
    → IsOutcome input (
        with_commission input
          (simulate_book_fill input evidence.relevant_levels)
          (create_evidence input evidence (simulate_book_fill input evidence.relevant_levels))
          (gross_notional (simulate_book_fill input evidence.relevant_levels))
          estimate)
unfolding blocked_result
with_commission-IsOutcome input evidence (err issue) a =
    idle blocked commission_unverified paper_execution_blocked _
with_commission-IsOutcome input evidence (ok estimate) a =
    applied evidence estimate.commission_minor a

conclude-IsOutcome :
    (input : PaperLimitExecutionInput) (evidence : ValidatedEvidence)
    → IsValid input
    → IsEvidence input evidence
    → IsOutcome input (conclude input evidence (simulate_book_fill input evidence.relevant_levels))
unfolding conclude no_fill_result
conclude-IsOutcome input evidence v e =
    let simulation = simulate_book_fill input evidence.relevant_levels in
    let quoted =
      is_within input.order.side input.order.limit_price_minor evidence.quote_price_minor in
    elim (Bool-cases quoted) [
      | inr far ↦ rw far (idle no_fill limit_not_crossed paper_limit_not_crossed _)
      | inl near ↦ elim (Bool-cases (eq_ℤ simulation.fill_quantity (pos 0))) [
        | inl none_here ↦ elim (Bool-cases (ltb_ℤ (pos 0) simulation.qualifying_book_quantity)) [
          | inl crossed ↦
              rw (near, none_here, crossed)
                (idle no_fill fillable_liquidity_insufficient paper_liquidity_insufficient _)
          | inr uncrossed ↦
              rw (near, none_here, uncrossed)
                (idle no_fill limit_not_crossed paper_limit_not_crossed _)
        ]
        | inr some_here ↦
            let good : IsApplied input evidence = record {
              valid = v;
              evident = e;
              quoted = near;
              some_fill = some_here;
            } in
            rw (near, some_here)
              (with_commission-IsOutcome input evidence
                (estimate_commission (commission_input input (gross_notional simulation))) good)
      ]
    ]

abbrev pub Returns :
    (input : PaperLimitExecutionInput) → Result Refusal PaperOrderExecutionResult → Type 0
Returns input call = (r : PaperOrderExecutionResult) × (call ≡ ok r) × IsOutcome input r

with_evidence-Returns :
    (input : PaperLimitExecutionInput) (call : Result Refusal ValidatedEvidence)
    → IsValid input
    → Checked (IsEvidence input) call
    → Returns input (with_evidence input call)
unfolding blocked_result
with_evidence-Returns input (err (refused reason)) v c =
    (_, refl, idle blocked reason paper_execution_blocked (bare_evidence input))
with_evidence-Returns input (err evaluation_time_unreadable) v c = absurd c
with_evidence-Returns input (ok evidence) v c = (_, refl, conclude-IsOutcome input evidence v c)

with_input-Returns :
    (input : PaperLimitExecutionInput) (call : Result PaperExecutionReasonCode Unit)
    → (call ≡ ok tt → IsValid input)
    → Returns input (with_input input call)
unfolding blocked_result
with_input-Returns input (err reason) v =
    (_, refl, idle blocked reason paper_execution_blocked (bare_evidence input))
with_input-Returns input (ok done) v =
    let valid = v refl in
    with_evidence-Returns input (validate_evidence input) valid
      (validate_evidence-Checked input valid.timed)

pub simulate-Returns :
    (input : PaperLimitExecutionInput) → Returns input (simulate_paper_limit_day_order input)
unfolding simulate_paper_limit_day_order
simulate-Returns input =
    with_input-Returns input (validate_input input) (validate_input-IsValid input)
