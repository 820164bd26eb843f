-- ===== src/Application/ExecutionGate/LiveConditions.antt =====
-- What each check of the mode LIVE asks for.
use portfolio_rebalancer.Prelude.{
  ℤ, pos, ◌+ℤ◌, ◌*ℤ◌, ◌≤ℤ◌, ◌<ℤ◌, leb_ℤ_iff, text_eq, text_eq_iff, big_int, is_blank, contains,
  Bool, true, false, not, ◌&&◌, List, find, All, find_iff, All-map, Option, none, some,
  Option-cases, arith, ◌≡◌, refl, ◌↔◌, inl, inr,
}
use portfolio_rebalancer.Application.RiskLimits.Trade.Allowed.{trade_limits_iff}
use portfolio_rebalancer.Application.ExecutionGate.{
  ExecutionOperationalConfig, kr, limit, day, PlannedExecutionOrder, ManualLiveApprovalEvidence,
  ExecutionRiskGateInput, is_passed,
}
use portfolio_rebalancer.Application.ExecutionGate.Checks.{is_absent, to_big_int, trade_input}
use portfolio_rebalancer.Application.ExecutionGate.Live.{
  to_lower_case, evaluate_account, is_bad_shape, evaluate_live_order_shape,
  evaluate_live_trade_limits, gross_of, evaluate_tiny_live_limit, is_digest, is_timely,
  is_valid_approval, evaluate_manual_approval,
}
use portfolio_rebalancer.Application.ExecutionGate.Conditions.{passes, absent_iff, IsLimited}

-- The account is one of those that LIVE may trade.
abbrev pub IsListed : ExecutionRiskGateInput → ExecutionOperationalConfig → Type 0
IsListed input config =
    contains config.live.account_allowlist_hmacs (to_lower_case input.account_external_ref_hmac)
    ≡ true

pub account_iff :
    (input : ExecutionRiskGateInput) (config : ExecutionOperationalConfig)
    → (is_passed (evaluate_account input config) ≡ true) ↔ IsListed input config
unfolding evaluate_account
account_iff input config = ground arith

-- A limit order of the Korean market, for one day.
abbrev pub IsLiveShape : PlannedExecutionOrder → Type 0
IsLiveShape order =
    (order.market_country ≡ kr) × (order.order_type ≡ limit) × (order.time_in_force ≡ day)

shape_iff : (order : PlannedExecutionOrder) → (is_bad_shape order ≡ false) ↔ IsLiveShape order
shape_iff order = ground arith

pub shapes_iff :
    (orders : List PlannedExecutionOrder)
    → (is_passed (evaluate_live_order_shape orders) ≡ true) ↔ All IsLiveShape orders
unfolding evaluate_live_order_shape
shapes_iff orders = (
  λ h.
      let none_found : is_absent (find is_bad_shape orders) ≡ true = ground (arith, h) in
      All-map (λ order. (shape_iff order).0) orders
        ((find_iff is_bad_shape orders).0 ((absent_iff (find is_bad_shape orders)).0 none_found)),
  λ h.
      let none_found =
        (find_iff is_bad_shape orders).1 (All-map (λ order. (shape_iff order).1) orders h) in
      rw none_found refl,
)

pub live_limits_iff :
    (input : ExecutionRiskGateInput) (config : ExecutionOperationalConfig)
    → (passes (evaluate_live_trade_limits input config) ≡ true)
      ↔ IsLimited input config
          (big_int config.live.max_single_order_gross_minor)
          (big_int config.live.max_daily_gross_minor)
unfolding evaluate_live_trade_limits to_big_int
live_limits_iff input config =
    elim (Option-cases (big_int config.live.max_single_order_gross_minor)) [
      | inl e ↦ rw e (λ h. absurd (ground arith), λ h. absurd h)
      | inr (max_single, e) ↦ elim (Option-cases (big_int config.live.max_daily_gross_minor)) [
        | inl f ↦ rw (e, f) (λ h. absurd (ground arith), λ h. absurd h)
        | inr (max_daily, f) ↦
            rw (e, f)
              (ground (arith, trade_limits_iff (trade_input input config max_single max_daily)))
      ]
    ]

-- The orders together are within the limit of a first LIVE plan.
abbrev pub IsTiny : List PlannedExecutionOrder → Option ℤ → Type 0
IsTiny orders none = ⊥
IsTiny orders (some maximum) = gross_of orders ≤ℤ maximum

pub IsTiny-iff :
    (orders : List PlannedExecutionOrder) (config : ExecutionOperationalConfig)
    → (passes (evaluate_tiny_live_limit orders config) ≡ true)
      ↔ IsTiny orders (big_int config.live.tiny_live_max_gross_minor)
unfolding evaluate_tiny_live_limit to_big_int
IsTiny-iff orders config = elim (Option-cases (big_int config.live.tiny_live_max_gross_minor)) [
  | inl e ↦ rw e (λ h. absurd (ground arith), λ h. absurd h)
  | inr (maximum, e) ↦ rw e (ground (arith, leb_ℤ_iff (gross_of orders) maximum))
]

-- Both dates are valid, and the approval is given and has not expired.
abbrev pub IsTimely : Option ℤ → Option ℤ → ℤ → Type 0
IsTimely none now ttl = ⊥
IsTimely (some approved) none ttl = ⊥
IsTimely (some approved) (some now) ttl = (approved ≤ℤ now) × (now <ℤ approved +ℤ ttl *ℤ pos 1000)

IsTimely-iff :
    (approved now : Option ℤ) (ttl : ℤ)
    → (is_timely approved now ttl ≡ true) ↔ IsTimely approved now ttl
IsTimely-iff none now ttl = (λ h. absurd (ground arith), λ h. absurd h)
IsTimely-iff (some approved) none ttl = (λ h. absurd (ground arith), λ h. absurd h)
IsTimely-iff (some approved) (some now) ttl = ground arith

-- An approval of this plan for this account, not used and not expired.
pub record IsApproved (input : ExecutionRiskGateInput) (config : ExecutionOperationalConfig)
    (approval : ManualLiveApprovalEvidence) : Type 0 where
  pub named : is_blank approval.approval_id ≡ false
  pub digest : is_digest approval.approval_digest ≡ true
  pub expected : approval.approval_digest ≡ approval.expected_approval_digest
  pub plan : approval.approved_plan_hash ≡ input.plan.plan_hash
  pub account :
      to_lower_case approval.approved_account_hmac ≡ to_lower_case input.account_external_ref_hmac
  pub unused : approval.consumed_at ≡ none
  pub timely : IsTimely approval.approved_at input.now config.live.approval_ttl_seconds

all_seven :
    (a b c d e f g : Bool)
    → ((a && b && c && d && e && f && g) ≡ true)
      ↔ ((a ≡ true) × (b ≡ true) × (c ≡ true) × (d ≡ true) × (e ≡ true) × (f ≡ true) × (g ≡ true))
all_seven a b c d e f g = ground arith

valid_approval_iff :
    (input : ExecutionRiskGateInput) (config : ExecutionOperationalConfig)
    (approval : ManualLiveApprovalEvidence)
    → (is_valid_approval input config approval ≡ true) ↔ IsApproved input config approval
unfolding is_valid_approval
valid_approval_iff input config approval =
    let digests = text_eq_iff approval.approval_digest approval.expected_approval_digest in
    let hashes = text_eq_iff approval.approved_plan_hash input.plan.plan_hash in
    let accounts =
      text_eq_iff (to_lower_case approval.approved_account_hmac)
        (to_lower_case input.account_external_ref_hmac) in
    let used = absent_iff approval.consumed_at in
    let dates = IsTimely-iff approval.approved_at input.now config.live.approval_ttl_seconds in
    let seven =
      all_seven (not (is_blank approval.approval_id)) (is_digest approval.approval_digest)
        (text_eq approval.approval_digest approval.expected_approval_digest)
        (text_eq approval.approved_plan_hash input.plan.plan_hash)
        (text_eq (to_lower_case approval.approved_account_hmac)
          (to_lower_case input.account_external_ref_hmac))
        (is_absent approval.consumed_at)
        (is_timely approval.approved_at input.now config.live.approval_ttl_seconds) in
    (
      λ h.
          let (named, digest, expected, plan, account, unused, timely) = seven.0 h in
          record {
            named = ground (arith, named);
            digest = digest;
            expected = digests.0 expected;
            plan = hashes.0 plan;
            account = accounts.0 account;
            unused = used.0 unused;
            timely = dates.0 timely;
          },
      λ v. seven.1 (
        rw v.named refl,
        v.digest,
        digests.1 v.expected,
        hashes.1 v.plan,
        accounts.1 v.account,
        used.1 v.unused,
        dates.1 v.timely,
      ),
    )

-- There is an approval, and it is valid.
abbrev pub IsManuallyApproved :
    ExecutionRiskGateInput → ExecutionOperationalConfig → Option ManualLiveApprovalEvidence → Type 0
IsManuallyApproved input config none = ⊥
IsManuallyApproved input config (some approval) = IsApproved input config approval

pub approval_iff :
    (input : ExecutionRiskGateInput) (config : ExecutionOperationalConfig)
    → (is_passed (evaluate_manual_approval input config) ≡ true)
      ↔ IsManuallyApproved input config input.manual_approval
unfolding evaluate_manual_approval
approval_iff input config = elim (Option-cases input.manual_approval) [
  | inl e ↦ rw e (λ h. absurd (ground arith), λ h. absurd h)
  | inr (approval, e) ↦ rw e (ground (arith, valid_approval_iff input config approval))
]
