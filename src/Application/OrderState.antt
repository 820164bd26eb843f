-- ===== src/Application/OrderState.antt =====
-- packages/application/src/order-state.ts: which changes of an order's state may be recorded, and what
-- to do with an order whose state is ambiguous. The texts of the messages are left out. A date is the
-- number of its `getTime()`, or `none` where that is NaN.
pub mod Graph
pub mod Lifecycle
pub mod Recovery
mod Examples
use portfolio_rebalancer.Prelude.{
  ℕ, ℤ, pos, ◌-ℤ◌, ltb_ℤ, leb_ℤ, Text, is_blank, Bool, true, false, not, ◌&&◌, Option, none, some,
  List, [], ◌∷◌, any, ◌==◌, if◌then◌else◌,
}

pub data OrderState : Type 0 where
  planned submitting pending partial_filled filled canceled rejected unknown unknown_blocked :
      OrderState

pub data OrderTransitionActor : Type 0 where
  executor reconciler operator : OrderTransitionActor

pub data OrderTransitionReasonCode : Type 0 where
  order_transition_allowed order_fill_progress_allowed order_state_unchanged :
      OrderTransitionReasonCode
  order_terminal_immutable order_transition_not_allowed : OrderTransitionReasonCode
  unknown_blocked_operator_required unknown_blocked_evidence_required : OrderTransitionReasonCode
  unknown_blocked_only_from_unknown : OrderTransitionReasonCode

pub record OrderTransitionDecision : Type 0 where
  pub allowed : Bool
  pub reason_code : OrderTransitionReasonCode

-- The place of a state in `ORDER_STATES`.
abbrev pub index : OrderState → ℕ
index planned = 0
index submitting = 1
index pending = 2
index partial_filled = 3
index filled = 4
index canceled = 5
index rejected = 6
index unknown = 7
index unknown_blocked = 8

-- `a === b`
abbrev pub same_state : OrderState → OrderState → Bool
same_state s t = index s == index t

-- `ALLOWED_TRANSITIONS`
unfoldable pub allowed_transitions : OrderState → List OrderState
allowed_transitions planned = submitting ∷ []
allowed_transitions submitting = pending ∷ rejected ∷ unknown ∷ []
allowed_transitions pending = partial_filled ∷ filled ∷ canceled ∷ rejected ∷ []
allowed_transitions partial_filled = filled ∷ canceled ∷ rejected ∷ []
allowed_transitions filled = []
allowed_transitions canceled = []
allowed_transitions rejected = []
allowed_transitions unknown =
    pending ∷ partial_filled ∷ filled ∷ canceled ∷ rejected ∷ unknown_blocked ∷ []
allowed_transitions unknown_blocked = pending ∷ partial_filled ∷ filled ∷ canceled ∷ rejected ∷ []

-- `IMMUTABLE_TERMINAL_STATES.has(state)`
abbrev pub is_terminal : OrderState → Bool
is_terminal filled = true
is_terminal canceled = true
is_terminal rejected = true
is_terminal _ = false

abbrev pub is_operator : OrderTransitionActor → Bool
is_operator operator = true
is_operator executor = false
is_operator reconciler = false

-- A missing property is `none`, as is the `null` of the evidence reference.
pub record OrderTransition : Type 0 where
  pub from : OrderState
  pub to : OrderState
  pub actor : OrderTransitionActor
  pub evidence_reference : Option Text
  pub previous_filled_quantity : Option ℤ
  pub next_filled_quantity : Option ℤ

abbrev pub blocked : OrderTransitionReasonCode → OrderTransitionDecision
blocked code = record { allowed = false; reason_code = code }

abbrev permitted : OrderTransitionReasonCode → OrderTransitionDecision
permitted code = record { allowed = true; reason_code = code }

-- Both quantities are given, and the filled quantity grows from at least 0.
abbrev pub grows : Option ℤ → Option ℤ → Bool
grows (some previous) (some next) = leb_ℤ (pos 0) previous && ltb_ℤ previous next
grows none next = false
grows (some previous) none = false

-- `!evidenceReference?.trim()`
abbrev pub lacks_evidence : Option Text → Bool
lacks_evidence none = true
lacks_evidence (some reference) = is_blank reference

unfoldable pub evaluate_order_transition : OrderTransition → OrderTransitionDecision
unfolding allowed_transitions
evaluate_order_transition input =
    if same_state from to
    then if same_state from partial_filled && grows previous_filled_quantity next_filled_quantity
      then permitted order_fill_progress_allowed
      else blocked order_state_unchanged
    else if is_terminal from
    then blocked order_terminal_immutable
    else if same_state to unknown_blocked && not (same_state from unknown)
    then blocked unknown_blocked_only_from_unknown
    else if same_state from unknown_blocked && not (is_operator actor)
    then blocked unknown_blocked_operator_required
    else if same_state from unknown_blocked && lacks_evidence evidence_reference
    then blocked unknown_blocked_evidence_required
    else if not (any (same_state to) (allowed_transitions from))
    then blocked order_transition_not_allowed
    else permitted order_transition_allowed
  where
    open input use {
      from, to, actor, evidence_reference, previous_filled_quantity, next_filled_quantity,
    }

pub data ReconciledBrokerState : Type 0 where
  pending partial_filled filled canceled rejected : ReconciledBrokerState

pub data AmbiguousOrderRecoveryAction : Type 0 where
  apply_reconciled_state reconcile_only transition_unknown_blocked : AmbiguousOrderRecoveryAction

pub data AmbiguousOrderReasonCode : Type 0 where
  broker_state_reconciled idempotency_window_active : AmbiguousOrderReasonCode
  idempotency_window_expired ambiguous_time_invalid : AmbiguousOrderReasonCode

pub record AmbiguousOrderRecoveryDecision : Type 0 where
  pub action : AmbiguousOrderRecoveryAction
  pub next_state : OrderState
  pub can_resubmit : Bool
  pub reason_code : AmbiguousOrderReasonCode

abbrev pub order_state_of : ReconciledBrokerState → OrderState
order_state_of ReconciledBrokerState.pending = OrderState.pending
order_state_of ReconciledBrokerState.partial_filled = OrderState.partial_filled
order_state_of ReconciledBrokerState.filled = OrderState.filled
order_state_of ReconciledBrokerState.canceled = OrderState.canceled
order_state_of ReconciledBrokerState.rejected = OrderState.rejected

abbrev pub idempotency_window_milliseconds : ℤ
idempotency_window_milliseconds = pos 600000

abbrev locked : AmbiguousOrderReasonCode → AmbiguousOrderRecoveryDecision
locked code = record {
  action = transition_unknown_blocked;
  next_state = unknown_blocked;
  can_resubmit = false;
  reason_code = code;
}

-- The decision with no broker state, by the elapsed time.
unfoldable pub recover_by_time : Option ℤ → Option ℤ → AmbiguousOrderRecoveryDecision
recover_by_time none now = locked ambiguous_time_invalid
recover_by_time (some since) none = locked ambiguous_time_invalid
recover_by_time (some since) (some now) =
    let elapsed = now -ℤ since in
    if ltb_ℤ elapsed (pos 0)
    then locked ambiguous_time_invalid
    else if ltb_ℤ elapsed idempotency_window_milliseconds
    then record {
      action = reconcile_only;
      next_state = unknown;
      can_resubmit = false;
      reason_code = idempotency_window_active;
    }
    else locked idempotency_window_expired

unfoldable pub evaluate_ambiguous_order_recovery :
    Option ℤ → Option ℤ → Option ReconciledBrokerState → AmbiguousOrderRecoveryDecision
unfolding recover_by_time
evaluate_ambiguous_order_recovery since now (some state) = record {
  action = apply_reconciled_state;
  next_state = order_state_of state;
  can_resubmit = false;
  reason_code = broker_state_reconciled;
}
evaluate_ambiguous_order_recovery since now none = recover_by_time since now
