-- ===== src/Application/ExecutionGate/Throws.antt =====
-- When the gate throws instead of deciding.
use portfolio_rebalancer.Prelude.{
  ℤ, Text, big_int, Bool, true, false, ◌&&◌, ◌||◌, List, [], ◌∷◌, ◌++◌, Option, none, some, Result,
  ok, err, ◌>>=◌, succeeds, ◌≡◌, refl, ◌↔◌, ◌⊎◌, arith, ap, ◌∙◌,
}
use portfolio_rebalancer.Application.ExecutionGate.{
  ExecutionMode, paper, live, ExecutionOperationalConfig, ValidatedExecutionOperationalConfig,
  valid, invalid, PlannedExecutionOrder, ExecutionRiskGateInput, ExecutionRiskGateDecision,
  GateError, not_an_integer, operational_config_invalid,
}
use portfolio_rebalancer.Application.ExecutionGate.Checks.{
  blocked, to_big_int, evaluate_executable_order_set, evaluate_general_trade_limits,
}
use portfolio_rebalancer.Application.ExecutionGate.Live.{
  evaluate_live_trade_limits, evaluate_tiny_live_limit,
}
use portfolio_rebalancer.Application.ExecutionGate.Gate.{
  decision, general_checks, live_checks, mode_checks, evaluate_execution_risk_gate,
}

-- `BigInt` reads the text.
abbrev is_integer : Text → Bool
is_integer s = elim (big_int s) [ none ↦ false | some n ↦ true ]

succeeds->>= :
    {A B : Type 0} (call : Result GateError A) (next : A → Result GateError B) (b : Bool)
    → ((a : A) → succeeds (next a) ≡ b)
    → succeeds (call >>= next) ≡ (succeeds call && b)
succeeds->>= (ok a) next b h = h a
succeeds->>= (err e) next b h = refl

read_succeeds :
    (s : Text) (o : Option ℤ)
    → succeeds
        (elim o as (λ o. Result GateError ℤ) [ none ↦ err (not_an_integer s) | some n ↦ ok n ])
      ≡ elim o [ none ↦ false | some n ↦ true ]
read_succeeds s none = refl
read_succeeds s (some n) = refl

to_big_int-succeeds : (s : Text) → succeeds (to_big_int s) ≡ is_integer s
unfolding to_big_int
to_big_int-succeeds s = read_succeeds s (big_int s)

-- One text that is read, and what is made of it.
read-succeeds :
    {B : Type 0} (s : Text) (next : ℤ → Result GateError B) (b : Bool)
    → ((n : ℤ) → succeeds (next n) ≡ b)
    → succeeds (to_big_int s >>= next) ≡ (is_integer s && b)
read-succeeds s next b h =
    succeeds->>= (to_big_int s) next b h ∙ ap (λ c. c && b) (to_big_int-succeeds s)

abbrev is_empty : List PlannedExecutionOrder → Bool
is_empty [] = true
is_empty (order ∷ orders) = false

order_set-succeeds :
    (orders : List PlannedExecutionOrder) (config : ExecutionOperationalConfig)
    → succeeds (evaluate_executable_order_set orders config)
      ≡ (is_empty orders || is_integer config.limits.minimum_order_gross_minor && true)
unfolding evaluate_executable_order_set
order_set-succeeds [] config = refl
order_set-succeeds (first ∷ others) config =
    read-succeeds config.limits.minimum_order_gross_minor _ true (λ minimum. refl)

general_limits-succeeds :
    (input : ExecutionRiskGateInput) (config : ExecutionOperationalConfig)
    → succeeds (evaluate_general_trade_limits input config) ≡ (
        is_integer config.limits.max_single_order_gross_minor
        && (is_integer config.limits.max_daily_gross_minor && true))
unfolding evaluate_general_trade_limits
general_limits-succeeds input config =
    read-succeeds config.limits.max_single_order_gross_minor _ _
      (λ single. read-succeeds config.limits.max_daily_gross_minor _ true (λ daily. refl))

live_limits-succeeds :
    (input : ExecutionRiskGateInput) (config : ExecutionOperationalConfig)
    → succeeds (evaluate_live_trade_limits input config) ≡ (
        is_integer config.live.max_single_order_gross_minor
        && (is_integer config.live.max_daily_gross_minor && true))
unfolding evaluate_live_trade_limits
live_limits-succeeds input config =
    read-succeeds config.live.max_single_order_gross_minor _ _
      (λ single. read-succeeds config.live.max_daily_gross_minor _ true (λ daily. refl))

tiny_limit-succeeds :
    (orders : List PlannedExecutionOrder) (config : ExecutionOperationalConfig)
    → succeeds (evaluate_tiny_live_limit orders config)
      ≡ (is_integer config.live.tiny_live_max_gross_minor && true)
unfolding evaluate_tiny_live_limit
tiny_limit-succeeds orders config =
    read-succeeds config.live.tiny_live_max_gross_minor _ true (λ maximum. refl)

-- The limit is no text of an integer.
abbrev pub IsUnreadable : Text → Type 0
IsUnreadable limit = big_int limit ≡ none

-- A limit that every mode reads cannot be read; the minimum of an order is read if there is one.
abbrev pub IsGeneralUnreadable : List PlannedExecutionOrder → ExecutionOperationalConfig → Type 0
IsGeneralUnreadable orders config =
    ((¬ (orders ≡ [])) × IsUnreadable config.limits.minimum_order_gross_minor)
    ⊎ IsUnreadable config.limits.max_single_order_gross_minor
    ⊎ IsUnreadable config.limits.max_daily_gross_minor

-- A limit that LIVE alone reads cannot be read.
abbrev pub IsLiveUnreadable : ExecutionOperationalConfig → Type 0
IsLiveUnreadable config =
    IsUnreadable config.live.max_single_order_gross_minor
    ⊎ IsUnreadable config.live.max_daily_gross_minor
    ⊎ IsUnreadable config.live.tiny_live_max_gross_minor

-- A limit that the mode reads cannot be read.
abbrev pub IsUnreadableFor : ExecutionRiskGateInput → ExecutionOperationalConfig → Type 0
IsUnreadableFor input config =
    IsGeneralUnreadable input.plan.orders config
    ⊎ ((input.requested_mode ≡ live) × IsLiveUnreadable config)

general-succeeds :
    (input : ExecutionRiskGateInput) (config : ExecutionOperationalConfig)
    → succeeds (general_checks input config) ≡ (
        succeeds (evaluate_executable_order_set input.plan.orders config)
        && (succeeds (evaluate_general_trade_limits input config) && true))
unfolding general_checks
general-succeeds input config =
    succeeds->>= (evaluate_executable_order_set input.plan.orders config) _ _ (λ order_set.
      succeeds->>= (evaluate_general_trade_limits input config) _ true (λ trade_limits. refl))

live-succeeds :
    (input : ExecutionRiskGateInput) (config : ExecutionOperationalConfig)
    → succeeds (live_checks input config) ≡ (
        succeeds (evaluate_live_trade_limits input config)
        && (succeeds (evaluate_tiny_live_limit input.plan.orders config) && true))
unfolding live_checks
live-succeeds input config =
    succeeds->>= (evaluate_live_trade_limits input config) _ _ (λ trade_limits.
      succeeds->>= (evaluate_tiny_live_limit input.plan.orders config) _ true (λ tiny. refl))

general_iff :
    (input : ExecutionRiskGateInput) (config : ExecutionOperationalConfig)
    → (succeeds (general_checks input config) ≡ false)
      ↔ IsGeneralUnreadable input.plan.orders config
general_iff input config = ground (
  arith,
  general-succeeds input config,
  order_set-succeeds input.plan.orders config,
  general_limits-succeeds input config,
)

mode_iff :
    (mode : ExecutionMode) (input : ExecutionRiskGateInput) (config : ExecutionOperationalConfig)
    → (succeeds (mode_checks mode input config) ≡ false) ↔ ((mode ≡ live) × IsLiveUnreadable config)
mode_iff paper input config = ground arith
mode_iff live input config = ground (
  arith,
  live-succeeds input config,
  live_limits-succeeds input config,
  tiny_limit-succeeds input.plan.orders config,
)

-- The gate with a configuration that is read, or with the invalid one.
abbrev gate_with :
    ExecutionRiskGateInput
    → ValidatedExecutionOperationalConfig
    → Result GateError ExecutionRiskGateDecision
gate_with input configured = elim configured [
  | invalid ↦ ok (decision (blocked operational_config_invalid none ∷ []))
  | valid config ↦ general_checks input config >>= (λ general.
      mode_checks input.requested_mode input config >>= (λ more. ok (decision (general ++ more))))
]

configured_iff :
    (input : ExecutionRiskGateInput) (configured : ValidatedExecutionOperationalConfig)
    → (succeeds (gate_with input configured) ≡ false) ↔ (
        (config : ExecutionOperationalConfig) × (configured ≡ valid config)
        × IsUnreadableFor input config)
configured_iff input invalid = (λ h. cc, λ (config, e, u). absurd (cc))
configured_iff input (valid config) =
    let parts : succeeds (gate_with input (valid config)) ≡ (
        succeeds (general_checks input config)
        && (succeeds (mode_checks input.requested_mode input config) && true)) =
      succeeds->>= (general_checks input config) _ _ (λ general.
        succeeds->>= (mode_checks input.requested_mode input config) _ true (λ more. refl)) in
    let general = general_iff input config in
    let mode = mode_iff input.requested_mode input config in
    (λ h. (config, refl, ground arith), λ (c, e, u). ground arith)

-- The gate throws instead of deciding exactly when the configuration is valid and one of its limits
-- that is read is not the text of an integer: the amount of one order or of a day; the minimum of an
-- order, if the plan has one; and for LIVE, one of the three limits of LIVE. No outcome of another check
-- prevents or causes it.
pub gate_throws_iff :
    (input : ExecutionRiskGateInput)
    → (succeeds (evaluate_execution_risk_gate input) ≡ false) ↔ (
        (config : ExecutionOperationalConfig) × (input.operational_config ≡ valid config)
        × IsUnreadableFor input config)
unfolding evaluate_execution_risk_gate
gate_throws_iff input = configured_iff input input.operational_config
