-- ===== src/Application/OrderState/Examples.antt =====
-- An operator recovers a blocked order, and the life of an order.
use portfolio_rebalancer.Prelude.{
  ℕ, ◌+◌, ◌≤◌, pos, text, Option, none, some, true, false, ◌≡◌, refl, ◌⊎◌, ◌↔◌,
}
use portfolio_rebalancer.Application.OrderState.{
  OrderState, planned, submitting, filled, rejected, unknown, unknown_blocked, executor, reconciler,
  operator, OrderTransition, ReconciledBrokerState, order_state_of, reconcile_only,
  evaluate_order_transition, evaluate_ambiguous_order_recovery,
}
use portfolio_rebalancer.Application.OrderState.Graph.{
  ◌⟶◌, IsAuthorised, IsFillProgress, transition_iff,
}
use portfolio_rebalancer.Application.OrderState.Lifecycle.{
  Recorded, event, History, start, change, rank, History-bounded, terminal_absorbs, open_can_fill,
}
use portfolio_rebalancer.Application.OrderState.Recovery.{
  recovery_event, IsInWindow, recovery_sound,
}

-- An operator, with a receipt, finds that a blocked order was filled.
abbrev unblocked : OrderTransition
unblocked = record {
  from = unknown_blocked;
  to = filled;
  actor = operator;
  evidence_reference = some (text "receipt 7");
  previous_filled_quantity = none;
  next_filled_quantity = none;
}

transition_iff_example : ((evaluate_order_transition unblocked).allowed ≡ true) ↔ (
    (unknown_blocked ⟶ filled) × IsAuthorised unknown_blocked operator (some (text "receipt 7"))
    ⊎ IsFillProgress unblocked)
transition_iff_example = transition_iff unblocked

abbrev by_executor : OrderState → OrderState → OrderTransition
by_executor s t = record {
  from = s;
  to = t;
  actor = executor;
  evidence_reference = none;
  previous_filled_quantity = none;
  next_filled_quantity = none;
}

submitted : Recorded planned submitting
unfolding evaluate_order_transition
submitted = event (by_executor planned submitting) refl refl refl

refused : Recorded submitting rejected
unfolding evaluate_order_transition
refused = event (by_executor submitting rejected) refl refl refl

-- The broker refuses a new order.
life : History planned rejected 2
life = change (change start submitted refl) refused refl

History-bounded_example : rank planned + 2 ≤ rank rejected
History-bounded_example = History-bounded life

resting : History rejected rejected 0
resting = start

terminal_absorbs_example : (◌≡◌ {A = OrderState} rejected rejected) × (◌≡◌ {A = ℕ} 0 0)
terminal_absorbs_example = terminal_absorbs refl resting

open_can_fill_example : (n : ℕ) × History unknown_blocked filled n
open_can_fill_example = open_can_fill unknown_blocked refl

recovery_sound_example :
    let d = evaluate_ambiguous_order_recovery (some (pos 1000)) (some (pos 500)) none in
    (d.can_resubmit ≡ false)
    × ((d.action ≡ reconcile_only)
          × (d.next_state ≡ unknown)
          × (◌≡◌ {A = Option ReconciledBrokerState} none none)
          × IsInWindow (some (pos 1000)) (some (pos 500))
        ⊎ ((evaluate_order_transition (recovery_event reconciler d.next_state)).allowed ≡ true)
          × (((b : ReconciledBrokerState) × (◌≡◌ {A = Option ReconciledBrokerState} none (some b))
                × (d.next_state ≡ order_state_of b))
              ⊎ (◌≡◌ {A = Option ReconciledBrokerState} none none)
                × (d.next_state ≡ unknown_blocked)
                × ¬ IsInWindow (some (pos 1000)) (some (pos 500))))
recovery_sound_example = recovery_sound reconciler (some (pos 1000)) (some (pos 500)) none
