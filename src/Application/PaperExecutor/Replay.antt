-- ===== src/Application/PaperExecutor/Replay.antt =====
-- What the replay of an order promises: quantities and cash that balance, changes of state that the
-- order's history may record, and fills that fresh evidence justifies.
use portfolio_rebalancer.Prelude.{
  ℤ, pos, ◌≤ℤ◌, ◌<ℤ◌, ◌+ℤ◌, ◌-ℤ◌, eq_ℤ, int_laws, eq_of_parts, sum_ℤ, sum_ℤ-nil, Text,
  parse_offset_date_time, Bool, Bool-cases, true, false, none, some, All, if◌then◌else◌, ok,
  ok-injective, arith, ◌≡◌, ◌↔◌, refl, sym, subst, ◌⊎◌, inl, inr, ◌∙◌,
}
use portfolio_rebalancer.Application.OrderState.{
  OrderState, executor, OrderTransition, evaluate_order_transition, allowed_transitions,
}
use portfolio_rebalancer.Application.PaperExecutor.{
  PaperLimitExecutionInput, PaperLevelExecution, PaperOrderExecutionResult, ValidatedEvidence,
}
use portfolio_rebalancer.Application.PaperExecutor.Book.{is_within, simulate_book_fill}
use portfolio_rebalancer.Application.PaperExecutor.Step.{
  net_cash_delta, create_evidence, filled_result, gross_notional, simulate_paper_limit_day_order,
}
use portfolio_rebalancer.Domain.OrderRounding.{Side, buy, sell}
use portfolio_rebalancer.Application.PaperExecutor.Fill.{
  IsExecution, IsFill, simulate_book_fill-IsFill,
}
use portfolio_rebalancer.Application.PaperExecutor.Valid.{IsFresh}
use portfolio_rebalancer.Application.PaperExecutor.Outcome.{
  IsApplied, IsOutcome, idle, applied, simulate-Returns,
}

-- The cash that moves: a purchase consumes the gross amount and the commission, a sale brings the gross
-- amount less the commission.
abbrev pub IsCash : Side → ℤ → ℤ → ℤ → Type 0
IsCash buy gross commission delta = delta +ℤ gross +ℤ commission ≡ pos 0
IsCash sell gross commission delta = delta +ℤ commission ≡ gross

-- The quantities and the cash of a result balance.
pub record IsBalanced (input : PaperLimitExecutionInput) (r : PaperOrderExecutionResult)
    : Type 0 where
  pub split : r.fill.quantity +ℤ r.fill.remaining_quantity ≡ input.order.remaining_quantity
  pub whole : sum_ℤ (λ (e : PaperLevelExecution). e.quantity) r.fill.executions ≡ r.fill.quantity
  pub gross :
      sum_ℤ (λ (e : PaperLevelExecution). e.notional_minor) r.fill.executions
      ≡ r.fill.gross_notional_minor
  pub each : All (IsExecution input) r.fill.executions
  pub cash :
      IsCash input.order.side r.fill.gross_notional_minor r.fill.commission_minor
        r.fill.net_cash_delta_minor
  pub progress : (r.normalized_transition.applied ≡ true) ↔ (pos 0 <ℤ r.fill.quantity)
  pub bounded :
      r.normalized_transition.applied ≡ true → r.fill.quantity ≤ℤ input.order.remaining_quantity

idle-IsCash : (side : Side) → IsCash side (pos 0) (pos 0) (pos 0)
unfolding ◌+ℤ◌
idle-IsCash buy = refl
idle-IsCash sell = refl

fill-IsCash :
    (side : Side) (gross commission : ℤ)
    → IsCash side gross commission (net_cash_delta side gross commission)
fill-IsCash buy gross commission = omega int_laws
fill-IsCash sell gross commission = omega int_laws

-- The fill of an applied step.
applied-IsFill :
    (input : PaperLimitExecutionInput) (evidence : ValidatedEvidence)
    → IsApplied input evidence
    → IsFill input (simulate_book_fill input evidence.relevant_levels)
applied-IsFill input evidence a =
    simulate_book_fill-IsFill input evidence.relevant_levels (a.valid).amount (a.valid).share
      (a.evident).levels

some_quantity : (q : ℤ) → pos 0 ≤ℤ q → eq_ℤ q (pos 0) ≡ false → pos 0 <ℤ q
some_quantity q h k = ground arith

outcome-IsBalanced :
    (input : PaperLimitExecutionInput) (r : PaperOrderExecutionResult)
    → IsOutcome input r
    → IsBalanced input r
unfolding filled_result gross_notional
outcome-IsBalanced input _ (idle decision reason raw_state evidence) = record {
  split = omega int_laws;
  whole = sum_ℤ-nil (λ (e : PaperLevelExecution). e.quantity);
  gross = sum_ℤ-nil (λ (e : PaperLevelExecution). e.notional_minor);
  each = tt;
  cash = idle-IsCash input.order.side;
  progress = ground arith;
  bounded = λ h. cc;
}
outcome-IsBalanced input _ (applied evidence commission a) =
    let simulation = simulate_book_fill input evidence.relevant_levels in
    let f = applied-IsFill input evidence a in
    let q = simulation.fill_quantity in
    let positive = some_quantity q f.amount a.some_fill in
    record {
      split = omega int_laws;
      whole = f.whole;
      gross = refl;
      each = f.each;
      cash = fill-IsCash input.order.side (gross_notional simulation) commission;
      progress = ((λ h. positive), λ h. refl);
      bounded = λ h. f.within_order;
    }

-- A step always returns a result, whatever its input is, and the result balances: the quantity that it
-- fills and the one that it leaves open make up the open quantity of the order; the executions add up to
-- that quantity and to the gross amount, each of them of a positive quantity at a price within the
-- limit; the cash that moves is the gross amount with the commission, consumed by a purchase, and
-- without it, added by a sale; and a transition is applied exactly with a positive quantity, which is
-- no more than the open one.
pub simulate-IsBalanced :
    (input : PaperLimitExecutionInput)
    → (r : PaperOrderExecutionResult) × (simulate_paper_limit_day_order input ≡ ok r)
      × IsBalanced input r
simulate-IsBalanced input =
    let (r, e, o) = simulate-Returns input in (r, e, outcome-IsBalanced input r o)

-- The event of a result in the history of an order that has filled so much before.
abbrev pub recorded : PaperOrderExecutionResult → ℤ → OrderTransition
recorded r previous = record {
  from = r.normalized_transition.from;
  to = r.normalized_transition.to;
  actor = executor;
  evidence_reference = none;
  previous_filled_quantity = some previous;
  next_filled_quantity = some (previous +ℤ r.fill.quantity);
}

-- An applied result may be recorded, any other keeps the state, and an order is filled when nothing of it
-- is left.
pub record IsRecordable (input : PaperLimitExecutionInput) (r : PaperOrderExecutionResult)
    (previous : ℤ) : Type 0 where
  pub start : r.normalized_transition.from ≡ input.order.current_state
  pub kept :
      r.normalized_transition.applied ≡ false
      → r.normalized_transition.to ≡ input.order.current_state
  pub allowed :
      r.normalized_transition.applied ≡ true
      → (evaluate_order_transition (recorded r previous)).allowed ≡ true
  pub finished :
      r.normalized_transition.applied ≡ true
      → (r.normalized_transition.to ≡ OrderState.filled) ↔ (r.fill.remaining_quantity ≡ pos 0)

finished_iff :
    (n : ℤ)
    → ((if eq_ℤ n (pos 0) then OrderState.filled else OrderState.partial_filled)
        ≡ OrderState.filled)
      ↔ (n ≡ pos 0)
finished_iff n = elim (Bool-cases (eq_ℤ n (pos 0))) [
  | inl e ↦ (λ h. eq_of_parts n (pos 0) (ground arith), λ h. rw e refl)
  | inr e ↦ (
    λ h. let h' : OrderState.partial_filled ≡ OrderState.filled = rw e at h in cc,
    λ h. let h' : true ≡ false = rw h at e in cc,
  )
]

-- A fill of an open order, whether it is the last or not.
abbrev progress_of : OrderState → Bool → ℤ → ℤ → OrderTransition
progress_of state full previous next = record {
  from = state;
  to = if full then OrderState.filled else OrderState.partial_filled;
  actor = executor;
  evidence_reference = none;
  previous_filled_quantity = some previous;
  next_filled_quantity = some next;
}

fill_allowed :
    (state : OrderState) (full : Bool) (previous next : ℤ)
    → (state ≡ OrderState.pending) ⊎ (state ≡ OrderState.partial_filled)
    → pos 0 ≤ℤ previous
    → previous <ℤ next
    → (evaluate_order_transition (progress_of state full previous next)).allowed ≡ true
unfolding evaluate_order_transition allowed_transitions
fill_allowed state true previous next (inl e) p q =
    subst (λ s. (evaluate_order_transition (progress_of s true previous next)).allowed ≡ true)
      (sym e) refl
fill_allowed state true previous next (inr e) p q =
    subst (λ s. (evaluate_order_transition (progress_of s true previous next)).allowed ≡ true)
      (sym e) refl
fill_allowed state false previous next (inl e) p q =
    subst (λ s. (evaluate_order_transition (progress_of s false previous next)).allowed ≡ true)
      (sym e) refl
fill_allowed state false previous next (inr e) p q =
    subst (λ s. (evaluate_order_transition (progress_of s false previous next)).allowed ≡ true)
      (sym e) (ground arith)

outcome-IsRecordable :
    (input : PaperLimitExecutionInput) (r : PaperOrderExecutionResult) (previous : ℤ)
    → pos 0 ≤ℤ previous
    → IsOutcome input r
    → IsRecordable input r previous
unfolding filled_result
outcome-IsRecordable input _ previous p (idle decision reason raw_state evidence) = record {
  start = refl;
  kept = λ h. refl;
  allowed = λ h. cc;
  finished = λ h. cc;
}
outcome-IsRecordable input _ previous p (applied evidence commission a) =
    let q = (simulate_book_fill input evidence.relevant_levels).fill_quantity in
    let positive = some_quantity q (applied-IsFill input evidence a).amount a.some_fill in
    record {
      start = refl;
      kept = λ h. cc;
      allowed = λ h.
          fill_allowed input.order.current_state
            (eq_ℤ (input.order.remaining_quantity -ℤ q) (pos 0)) previous (previous +ℤ q)
            (a.valid).open_state p (omega int_laws);
      finished = λ h. finished_iff (
          input.order.remaining_quantity
          -ℤ (simulate_book_fill input evidence.relevant_levels).fill_quantity);
    }

-- The event of a returned result stands in the order's history: it starts from the order's state; if it
-- is applied, `evaluateOrderTransition` allows it to the executor after any filled quantity that is not
-- negative, and it ends in FILLED exactly if nothing is left open; otherwise the state is kept.
pub simulate-IsRecordable :
    (input : PaperLimitExecutionInput) (previous : ℤ) {r : PaperOrderExecutionResult}
    → pos 0 ≤ℤ previous
    → simulate_paper_limit_day_order input ≡ ok r
    → IsRecordable input r previous
simulate-IsRecordable input previous {r} p h =
    let (r', e, o) = simulate-Returns input in
    subst (λ x. IsRecordable input x previous) (ok-injective (sym e ∙ h))
      (outcome-IsRecordable input r' previous p o)

-- The evidence of a fill: a quote within the limit and a book, both observed after the order was sent
-- and no longer ago than the policy allows, and levels that offer the quantity.
pub record IsJustified (input : PaperLimitExecutionInput) (r : PaperOrderExecutionResult)
    : Type 0 where
  pub quote_at : Text
  pub book_at : Text
  pub price : ℤ
  pub evaluated : ℤ
  pub submitted : ℤ
  pub quote_observed : r.evidence.quote_observed_at ≡ some quote_at
  pub book_observed : r.evidence.order_book_observed_at ≡ some book_at
  pub quote_price : r.evidence.quote_price_minor ≡ some price
  pub within : is_within input.order.side input.order.limit_price_minor price ≡ true
  pub evaluated_at : parse_offset_date_time input.evaluated_at ≡ some evaluated
  pub submitted_at : parse_offset_date_time input.order.submitted_at ≡ some submitted
  pub quote_fresh : IsFresh input.freshness_policy evaluated submitted quote_at
  pub book_fresh : IsFresh input.freshness_policy evaluated submitted book_at
  pub offered : r.fill.quantity ≤ℤ r.evidence.simulated_available_quantity

outcome-IsJustified :
    (input : PaperLimitExecutionInput) (r : PaperOrderExecutionResult)
    → IsOutcome input r
    → r.normalized_transition.applied ≡ true
    → IsJustified input r
unfolding filled_result create_evidence
outcome-IsJustified input _ (idle decision reason raw_state evidence) h = cc
outcome-IsJustified input _ (applied evidence commission a) h =
    let e = a.evident in
    record {
      quote_at = evidence.quote_observed_at;
      book_at = evidence.order_book_observed_at;
      price = evidence.quote_price_minor;
      evaluated = e.evaluated;
      submitted = e.submitted;
      quote_observed = refl;
      book_observed = refl;
      quote_price = refl;
      within = a.quoted;
      evaluated_at = e.evaluated_at;
      submitted_at = e.submitted_at;
      quote_fresh = e.quote;
      book_fresh = e.book;
      offered = (applied-IsFill input evidence a).within_book;
    }

-- A returned result that applies a fill carries its evidence: the observed times of a quote and of a book
-- that both lie after the time of the order, are no older than the policy's maximum age and no further
-- ahead than its tolerance, a quoted price within the limit, and levels that offer the filled quantity.
pub simulate-IsJustified :
    (input : PaperLimitExecutionInput) {r : PaperOrderExecutionResult}
    → simulate_paper_limit_day_order input ≡ ok r
    → r.normalized_transition.applied ≡ true
    → IsJustified input r
simulate-IsJustified input {r} h =
    let (r', e, o) = simulate-Returns input in
    subst (λ x. x.normalized_transition.applied ≡ true → IsJustified input x)
      (ok-injective (sym e ∙ h)) (outcome-IsJustified input r' o)
