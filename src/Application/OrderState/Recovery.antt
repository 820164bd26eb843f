-- ===== src/Application/OrderState/Recovery.antt =====
-- Recovery of an ambiguous order fits the transitions that the ledger allows.
use portfolio_rebalancer.Prelude.{
  ℤ, pos, ◌-ℤ◌, ◌<ℤ◌, ◌≤ℤ◌, true, false, Option, none, some, ◌≡◌, refl, ◌⊎◌, inl, inr, ltb_ℤ,
  ltb_ℤ_iff, ltb_ℤ-false_iff, int_laws, Bool-cases,
}
use portfolio_rebalancer.Application.OrderState.{
  OrderState, unknown, unknown_blocked, OrderTransitionActor, OrderTransition,
  AmbiguousOrderRecoveryDecision, ReconciledBrokerState, order_state_of, reconcile_only,
  idempotency_window_milliseconds, evaluate_order_transition, recover_by_time,
  evaluate_ambiguous_order_recovery,
}

-- The event that records a recovery of an UNKNOWN order.
abbrev pub recovery_event : OrderTransitionActor → OrderState → OrderTransition
recovery_event actor next = record {
  from = unknown;
  to = next;
  actor = actor;
  evidence_reference = none;
  previous_filled_quantity = none;
  next_filled_quantity = none;
}

-- Both dates are valid, and less than ten minutes, and no negative time, lie between them.
abbrev pub IsInWindow : Option ℤ → Option ℤ → Type 0
IsInWindow (some since) (some now) =
    (since ≤ℤ now) × (now -ℤ since <ℤ idempotency_window_milliseconds)
IsInWindow _ _ = ⊥

-- What a decision with no broker state is, by the window.
abbrev IsTimed :
    OrderTransitionActor → Option ℤ → Option ℤ → AmbiguousOrderRecoveryDecision → Type 0
IsTimed actor since now d =
    (d.can_resubmit ≡ false)
    × ((d.action ≡ reconcile_only) × (d.next_state ≡ unknown) × IsInWindow since now
        ⊎ ((evaluate_order_transition (recovery_event actor d.next_state)).allowed ≡ true)
          × (d.next_state ≡ unknown_blocked)
          × ¬ IsInWindow since now)

by_elapsed :
    (actor : OrderTransitionActor) (since now : ℤ)
    → IsTimed actor (some since) (some now) (recover_by_time (some since) (some now))
unfolding recover_by_time evaluate_order_transition
by_elapsed actor since now = elim (Bool-cases (ltb_ℤ (now -ℤ since) (pos 0))) [
  | inl early ↦
      let e = (ltb_ℤ_iff (now -ℤ since) (pos 0)).0 early in
      rw early (refl, inr (refl, refl, λ w. let l = w.0 in absurd (omega int_laws)))
  | inr later ↦
      let e = (ltb_ℤ-false_iff (now -ℤ since) (pos 0)).0 later in
      elim (Bool-cases (ltb_ℤ (now -ℤ since) idempotency_window_milliseconds)) [
        | inl inside ↦
            rw (later, inside)
              (
                refl,
                inl (
                  refl,
                  refl,
                  (
                    omega int_laws,
                    (ltb_ℤ_iff (now -ℤ since) idempotency_window_milliseconds).0 inside,
                  ),
                ),
              )
        | inr outside ↦
            let o = (ltb_ℤ-false_iff (now -ℤ since) idempotency_window_milliseconds).0 outside in
            rw (later, outside)
              (refl, inr (refl, refl, λ w. let l = w.1 in absurd (omega int_laws)))
      ]
]

-- The recovery of an UNKNOWN order never resubmits it. Either it waits, exactly as it must when there
-- is no broker state and the window of ten minutes is open, and the order stays UNKNOWN; or the next
-- state is one that the ledger lets any actor record without evidence, which is the broker's state
-- if there is one and UNKNOWN_BLOCKED if there is none.
pub recovery_sound :
    (actor : OrderTransitionActor) (since now : Option ℤ) (broker : Option ReconciledBrokerState)
    → let d = evaluate_ambiguous_order_recovery since now broker in
      (d.can_resubmit ≡ false)
      × ((d.action ≡ reconcile_only)
            × (d.next_state ≡ unknown)
            × (broker ≡ none)
            × IsInWindow since now
          ⊎ ((evaluate_order_transition (recovery_event actor d.next_state)).allowed ≡ true)
            × (((b : ReconciledBrokerState) × (broker ≡ some b) × (d.next_state ≡ order_state_of b))
                ⊎ (broker ≡ none) × (d.next_state ≡ unknown_blocked) × ¬ IsInWindow since now))
unfolding evaluate_ambiguous_order_recovery evaluate_order_transition
recovery_sound actor since now (some ReconciledBrokerState.pending) =
    (refl, inr (refl, inl (ReconciledBrokerState.pending, refl, refl)))
recovery_sound actor since now (some ReconciledBrokerState.partial_filled) =
    (refl, inr (refl, inl (ReconciledBrokerState.partial_filled, refl, refl)))
recovery_sound actor since now (some ReconciledBrokerState.filled) =
    (refl, inr (refl, inl (ReconciledBrokerState.filled, refl, refl)))
recovery_sound actor since now (some ReconciledBrokerState.canceled) =
    (refl, inr (refl, inl (ReconciledBrokerState.canceled, refl, refl)))
recovery_sound actor since now (some ReconciledBrokerState.rejected) =
    (refl, inr (refl, inl (ReconciledBrokerState.rejected, refl, refl)))
recovery_sound actor none now none = (refl, inr (refl, inr (refl, refl, λ h. h)))
recovery_sound actor (some since) none none = (refl, inr (refl, inr (refl, refl, λ h. h)))
recovery_sound actor (some since) (some now) none =
    let (keeps, cases) = by_elapsed actor since now in
    (
      keeps,
      (elim cases [
        | inl (waits, stays, window) ↦ inl (waits, stays, refl, window)
        | inr (allowed, locked, closed) ↦ inr (allowed, inr (refl, locked, closed))
      ]),
    )
