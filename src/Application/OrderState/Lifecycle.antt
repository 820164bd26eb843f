-- ===== src/Application/OrderState/Lifecycle.antt =====
-- Every history of an order that `evaluateOrderTransition` allows is short and ends for good.
use portfolio_rebalancer.Prelude.{
  ℕ, zero, suc, ◌+◌, ◌≤◌, text, true, false, none, some, ◌≡◌, refl, sym, subst, ◌∙◌, inl, inr,
  arith,
}
use portfolio_rebalancer.Application.OrderState.{
  OrderState, planned, submitting, pending, partial_filled, filled, canceled, rejected, unknown,
  unknown_blocked, operator, OrderTransition, is_terminal, same_state, evaluate_order_transition,
}
use portfolio_rebalancer.Application.OrderState.Graph.{
  IsClosed, filled_closed, canceled_closed, rejected_closed, IsReported, open_reported,
  partial_reported, closed_reported, ◌⟶◌, submit, accept, refuse, lose, fill, close, close_partial,
  reconcile, lock, recover, IsAuthorised, transition_iff,
}

-- One recorded event.
pub data Recorded (s t : OrderState) : Type 0 where
  event :
      (i : OrderTransition)
      → i.from ≡ s
      → i.to ≡ t
      → (evaluate_order_transition i).allowed ≡ true
      → Recorded s t

-- Recorded events in a row, with the number of those that change the state.
pub data History (s : OrderState) : OrderState → ℕ → Type 0 where
  start : History s s zero
  change :
      {t u : OrderState} {n : ℕ}
      → History s t n
      → Recorded t u
      → same_state t u ≡ false
      → History s u (suc n)
  progress :
      {t u : OrderState} {n : ℕ}
      → History s t n
      → Recorded t u
      → same_state t u ≡ true
      → History s u n

-- How far an order has come.
abbrev pub rank : OrderState → ℕ
rank planned = 0
rank submitting = 1
rank unknown = 2
rank unknown_blocked = 3
rank pending = 4
rank partial_filled = 5
rank filled = 6
rank canceled = 6
rank rejected = 6

rank-IsClosed : {s : OrderState} → IsClosed s → rank s ≡ 6
rank-IsClosed filled_closed = refl
rank-IsClosed canceled_closed = refl
rank-IsClosed rejected_closed = refl

rank-IsReported : {s : OrderState} → IsReported s → 4 ≤ rank s
rank-IsReported open_reported = omega arith
rank-IsReported partial_reported = omega arith
rank-IsReported (closed_reported c) = omega (arith, rank-IsClosed c)

rank-edge : {s t : OrderState} → s ⟶ t → suc (rank s) ≤ rank t
rank-edge submit = omega arith
rank-edge accept = omega arith
rank-edge refuse = omega arith
rank-edge lose = omega arith
rank-edge fill = omega arith
rank-edge (close c) = omega (arith, rank-IsClosed c)
rank-edge (close_partial c) = omega (arith, rank-IsClosed c)
rank-edge (reconcile r) = omega (arith, rank-IsReported r)
rank-edge lock = omega arith
rank-edge (recover r) = omega (arith, rank-IsReported r)

event-edge : {s t : OrderState} → Recorded s t → same_state s t ≡ false → s ⟶ t
event-edge {t = t} (event i from to h) d = elim ((transition_iff i).0 h) [
  | inl (edge, authorised) ↦ subst (λ a. a ⟶ t) from (subst (λ b. i.from ⟶ b) to edge)
  | inr (from_partial, to_partial, grown) ↦
      absurd (ground (arith, sym from ∙ from_partial, sym to ∙ to_partial))
]

-- Every change of state takes an order further: no history returns to a state it has left, and a new
-- order changes its state six times at most.
pub History-bounded : {s t : OrderState} {n : ℕ} → History s t n → rank s + n ≤ rank t
History-bounded start = omega arith
History-bounded (change h r d) = omega (arith, History-bounded h, rank-edge (event-edge r d))
History-bounded (progress {t = t} {u = u} h r d) =
    let same : rank t ≡ rank u = ground arith in omega (arith, History-bounded h)

closed-refused :
    (i : OrderTransition)
    → is_terminal i.from ≡ true
    → ¬ ((evaluate_order_transition i).allowed ≡ true)
unfolding evaluate_order_transition
closed-refused i e h = ground arith

operator-IsAuthorised : (s : OrderState) → IsAuthorised s operator (some (text "receipt"))
operator-IsAuthorised unknown_blocked = (refl, refl)
operator-IsAuthorised planned = tt
operator-IsAuthorised _ = tt

terminal_event : {s t : OrderState} → is_terminal s ≡ true → Recorded s t → ⊥
terminal_event e (event i from to h) =
    let same : is_terminal i.from ≡ true = rw from e in absurd (closed-refused i same h)

-- A filled, canceled or rejected order stays what it is: nothing more is ever recorded of it.
pub terminal_absorbs :
    {s t : OrderState} {n : ℕ} → is_terminal s ≡ true → History s t n → (t ≡ s) × (n ≡ 0)
terminal_absorbs e start = (refl, refl)
terminal_absorbs e (change h r d) =
    absurd (terminal_event (subst (λ x. is_terminal x ≡ true) (sym (terminal_absorbs e h).0) e) r)
terminal_absorbs e (progress h r d) =
    absurd (terminal_event (subst (λ x. is_terminal x ≡ true) (sym (terminal_absorbs e h).0) e) r)

by_operator : {s t : OrderState} → s ⟶ t → Recorded s t
by_operator {s} {t} edge =
    event
      (record {
        from = s;
        to = t;
        actor = operator;
        evidence_reference = some (text "receipt");
        previous_filled_quantity = none;
        next_filled_quantity = none;
      })
      refl refl ((transition_iff _).1 (inl (edge, operator-IsAuthorised s)))

step_by : {s t : OrderState} → s ⟶ t → same_state s t ≡ false → History s t 1
step_by edge d = change start (by_operator edge) d

-- An order that is not closed can always be closed: some history of allowed events fills it.
pub open_can_fill : (s : OrderState) → is_terminal s ≡ false → (n : ℕ) × History s filled n
open_can_fill planned h = (
  3,
  change (change (step_by submit refl) (by_operator accept) refl)
      (by_operator (close filled_closed)) refl,
)
open_can_fill submitting h =
    (2, change (step_by accept refl) (by_operator (close filled_closed)) refl)
open_can_fill pending h = (1, step_by (close filled_closed) refl)
open_can_fill partial_filled h = (1, step_by (close_partial filled_closed) refl)
open_can_fill filled h = cc
open_can_fill canceled h = cc
open_can_fill rejected h = cc
open_can_fill unknown h = (1, step_by (reconcile (closed_reported filled_closed)) refl)
open_can_fill unknown_blocked h = (1, step_by (recover (closed_reported filled_closed)) refl)
