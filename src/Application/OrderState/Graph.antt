-- ===== src/Application/OrderState/Graph.antt =====
-- The diagram of an order's states as the code has it, and that `evaluateOrderTransition` decides it.
-- The diagram of docs/SPEC.md 5.9 is the same but for one edge, from PARTIAL_FILLED to REJECTED, which
-- the code, order-state.test.ts and the triggers of the database allow.
use portfolio_rebalancer.Prelude.{
  ℤ, Text, true, false, Option, none, some, is_blank, pos, ◌≤ℤ◌, ◌<ℤ◌, ◌≡◌, refl, ◌↔◌, ◌⊎◌, inl,
  inr, arith, Bool-cases,
}
use portfolio_rebalancer.Application.OrderState.{
  OrderState, planned, submitting, pending, partial_filled, filled, canceled, rejected, unknown,
  unknown_blocked, OrderTransitionActor, operator, OrderTransition, same_state,
  evaluate_order_transition,
}

pub data IsClosed : OrderState → Type 0 where
  filled_closed : IsClosed filled
  canceled_closed : IsClosed canceled
  rejected_closed : IsClosed rejected

-- A state that the broker reports.
pub data IsReported : OrderState → Type 0 where
  open_reported : IsReported pending
  partial_reported : IsReported partial_filled
  closed_reported : {s : OrderState} → IsClosed s → IsReported s

infix 40 ◌⟶◌
pub data ◌⟶◌ : OrderState → OrderState → Type 0 where
  submit : planned ⟶ submitting
  accept : submitting ⟶ pending
  refuse : submitting ⟶ rejected
  lose : submitting ⟶ unknown
  fill : pending ⟶ partial_filled
  close : {s : OrderState} → IsClosed s → pending ⟶ s
  close_partial : {s : OrderState} → IsClosed s → partial_filled ⟶ s
  reconcile : {s : OrderState} → IsReported s → unknown ⟶ s
  lock : unknown ⟶ unknown_blocked
  recover : {s : OrderState} → IsReported s → unknown_blocked ⟶ s

-- A reference that is given and not blank.
abbrev pub IsEvidence : Option Text → Type 0
IsEvidence none = ⊥
IsEvidence (some reference) = is_blank reference ≡ false

-- A locked order is recovered by an operator with evidence alone.
abbrev pub IsAuthorised : OrderState → OrderTransitionActor → Option Text → Type 0
IsAuthorised unknown_blocked actor evidence = (actor ≡ operator) × IsEvidence evidence
IsAuthorised _ actor evidence = Unit

-- Both quantities are given, and the next is larger than the previous, which is at least 0.
abbrev pub IsLarger : Option ℤ → Option ℤ → Type 0
IsLarger (some previous) (some next) = (pos 0 ≤ℤ previous) × (previous <ℤ next)
IsLarger none next = ⊥
IsLarger (some previous) none = ⊥

-- A partially filled order stays so, with more filled.
abbrev pub IsFillProgress : OrderTransition → Type 0
IsFillProgress i =
    (i.from ≡ partial_filled)
    × (i.to ≡ partial_filled)
    × IsLarger i.previous_filled_quantity i.next_filled_quantity

pub ruleset edges = (
  submit, accept, refuse, lose, fill, close, close_partial, reconcile, lock, recover, filled_closed,
  canceled_closed, rejected_closed, open_reported, partial_reported, closed_reported,
)

abbrev transition :
    OrderState
    → OrderState
    → OrderTransitionActor
    → Option Text
    → Option ℤ
    → Option ℤ
    → OrderTransition
transition s t a e p n = record {
  from = s;
  to = t;
  actor = a;
  evidence_reference = e;
  previous_filled_quantity = p;
  next_filled_quantity = n;
}

module _ (a : OrderTransitionActor) (e : Option Text) (p n : Option ℤ) where
  edge-allowed :
      {s t : OrderState}
      → s ⟶ t
      → IsAuthorised s a e
      → (evaluate_order_transition (transition s t a e p n)).allowed ≡ true
  unfolding evaluate_order_transition
  edge-allowed submit h = refl
  edge-allowed accept h = refl
  edge-allowed refuse h = refl
  edge-allowed lose h = refl
  edge-allowed fill h = refl
  edge-allowed (close filled_closed) h = refl
  edge-allowed (close canceled_closed) h = refl
  edge-allowed (close rejected_closed) h = refl
  edge-allowed (close_partial filled_closed) h = refl
  edge-allowed (close_partial canceled_closed) h = refl
  edge-allowed (close_partial rejected_closed) h = refl
  edge-allowed (reconcile open_reported) h = refl
  edge-allowed (reconcile partial_reported) h = refl
  edge-allowed (reconcile (closed_reported filled_closed)) h = refl
  edge-allowed (reconcile (closed_reported canceled_closed)) h = refl
  edge-allowed (reconcile (closed_reported rejected_closed)) h = refl
  edge-allowed lock h = refl
  edge-allowed (recover open_reported) h = ground arith
  edge-allowed (recover partial_reported) h = ground arith
  edge-allowed (recover (closed_reported filled_closed)) h = ground arith
  edge-allowed (recover (closed_reported canceled_closed)) h = ground arith
  edge-allowed (recover (closed_reported rejected_closed)) h = ground arith

  allowed-edge :
      (s t : OrderState)
      → same_state s t ≡ false
      → (evaluate_order_transition (transition s t a e p n)).allowed ≡ true
      → (s ⟶ t) × IsAuthorised s a e
  unfolding evaluate_order_transition
  allowed-edge planned t d h = grind (arith, edges)
  allowed-edge submitting t d h = grind (arith, edges)
  allowed-edge pending t d h = grind (arith, edges)
  allowed-edge partial_filled t d h = grind (arith, edges)
  allowed-edge filled t d h = ground arith
  allowed-edge canceled t d h = ground arith
  allowed-edge rejected t d h = ground arith
  allowed-edge unknown t d h = grind (arith, edges)
  allowed-edge unknown_blocked t d h = grind (arith, edges)

  allowed-progress :
      (s t : OrderState)
      → same_state s t ≡ true
      → (evaluate_order_transition (transition s t a e p n)).allowed ≡ true
      → IsFillProgress (transition s t a e p n)
  unfolding evaluate_order_transition
  allowed-progress s t d h = ground arith

  progress-allowed :
      (s t : OrderState)
      → IsFillProgress (transition s t a e p n)
      → (evaluate_order_transition (transition s t a e p n)).allowed ≡ true
  unfolding evaluate_order_transition
  progress-allowed s t h = ground arith

same_state-eq : (s t : OrderState) → same_state s t ≡ true → s ≡ t
same_state-eq s t h = ground arith

edge-differs : {s t : OrderState} → s ⟶ t → same_state s t ≡ false
edge-differs submit = refl
edge-differs accept = refl
edge-differs refuse = refl
edge-differs lose = refl
edge-differs fill = refl
edge-differs (close filled_closed) = refl
edge-differs (close canceled_closed) = refl
edge-differs (close rejected_closed) = refl
edge-differs (close_partial filled_closed) = refl
edge-differs (close_partial canceled_closed) = refl
edge-differs (close_partial rejected_closed) = refl
edge-differs (reconcile open_reported) = refl
edge-differs (reconcile partial_reported) = refl
edge-differs (reconcile (closed_reported filled_closed)) = refl
edge-differs (reconcile (closed_reported canceled_closed)) = refl
edge-differs (reconcile (closed_reported rejected_closed)) = refl
edge-differs lock = refl
edge-differs (recover open_reported) = refl
edge-differs (recover partial_reported) = refl
edge-differs (recover (closed_reported filled_closed)) = refl
edge-differs (recover (closed_reported canceled_closed)) = refl
edge-differs (recover (closed_reported rejected_closed)) = refl

-- A transition is allowed exactly when it follows an edge of the diagram that stands above, which also
-- leads from PARTIAL_FILLED to REJECTED, with an operator and evidence that is not blank if it leaves
-- UNKNOWN_BLOCKED, or when it records a larger filled quantity, grown from at least 0, of an order that
-- stays PARTIAL_FILLED.
pub transition_iff :
    (i : OrderTransition)
    → ((evaluate_order_transition i).allowed ≡ true)
      ↔ ((i.from ⟶ i.to) × IsAuthorised i.from i.actor i.evidence_reference ⊎ IsFillProgress i)
transition_iff i = (
  λ h. elim (Bool-cases (same_state i.from i.to)) [
    | inl same ↦ inr (
        allowed-progress actor evidence_reference previous_filled_quantity next_filled_quantity from
          to same h)
    | inr other ↦ inl (
        allowed-edge actor evidence_reference previous_filled_quantity next_filled_quantity from to
          other h)
  ],
  λ h. elim h [
    | inl (edge, authorised) ↦
        edge-allowed actor evidence_reference previous_filled_quantity next_filled_quantity edge
          authorised
    | inr progress ↦
        progress-allowed actor evidence_reference previous_filled_quantity next_filled_quantity from
          to progress
  ],
)
  where
    open i use {from, to, actor, evidence_reference, previous_filled_quantity, next_filled_quantity}
