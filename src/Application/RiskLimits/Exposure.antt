-- ===== src/Application/RiskLimits/Exposure.antt =====
-- packages/application/src/risk-limits.ts, `evaluateExposureLimits`.
pub mod Concentration
use portfolio_rebalancer.Prelude.{
  ℤ, pos, ◌*ℤ◌, ◌/ℤ◌, ltb_ℤ, leb_ℤ, Text, text, is_blank, set_of, Bool, true, false, not, ◌||◌,
  ◌&&◌, List, map, all, length, find, ◌==◌, Option, none, some, if◌then◌else◌,
}
use portfolio_rebalancer.Application.RiskLimits.{
  RiskLimitStatus, ready_status, blocked_status, is_ready,
}

pub data ExposureLimitReasonCode : Type 0 where
  exposure_limits_ok : ExposureLimitReasonCode
  exposure_limit_policy_invalid : ExposureLimitReasonCode
  exposure_limit_input_invalid : ExposureLimitReasonCode
  instrument_weight_limit_exceeded : ExposureLimitReasonCode
  asset_class_weight_limit_exceeded : ExposureLimitReasonCode
  risky_asset_weight_limit_exceeded : ExposureLimitReasonCode

pub record ExposureValue : Type 0 where
  pub key : Text
  pub value_minor : ℤ

-- The Korean message of each decision is left out.
pub record ExposureLimitDecision : Type 0 where
  pub status : RiskLimitStatus
  pub can_proceed : Bool
  pub reason_code : ExposureLimitReasonCode
  pub subject_key : Option Text
  pub observed_basis_points_floor : Option ℤ

pub record ExposureLimitInput : Type 0 where
  pub portfolio_value_minor : ℤ
  pub instruments : List ExposureValue
  pub asset_classes : List ExposureValue
  pub risky_asset_value_minor : ℤ
  pub max_instrument_basis_points : ℤ
  pub max_asset_class_basis_points : ℤ
  pub max_risky_asset_basis_points : ℤ

abbrev pub is_within_portfolio : ℤ → ExposureValue → Bool
is_within_portfolio total e = leb_ℤ (pos 0) e.value_minor && leb_ℤ e.value_minor total

unfoldable pub exposures_are_valid : List ExposureValue → ℤ → Bool
exposures_are_valid exposures total =
    let keys = map (λ e. e.key) exposures in
    all (λ key. not (is_blank key)) keys
    && length (set_of keys) == length keys
    && all (is_within_portfolio total) exposures

unfoldable pub basis_point_limit_is_valid : ℤ → Bool
basis_point_limit_is_valid value = leb_ℤ (pos 0) value && leb_ℤ value (pos 10000)

abbrev pub basis_points_floor : ℤ → ℤ → ℤ
basis_points_floor value total = value *ℤ pos 10000 /ℤ total

abbrev pub exposure_decision :
    RiskLimitStatus → ExposureLimitReasonCode → Option Text → Option ℤ → ExposureLimitDecision
exposure_decision status reason subject observed = record {
  status = status;
  can_proceed = is_ready status;
  reason_code = reason;
  subject_key = subject;
  observed_basis_points_floor = observed;
}

-- `valueMinor * 10_000n > limit * portfolioValueMinor`
abbrev pub exceeds_weight : ℤ → ℤ → ℤ → Bool
exceeds_weight limit total value = ltb_ℤ (limit *ℤ total) (value *ℤ pos 10000)

abbrev pub is_overweight : ℤ → ℤ → ExposureValue → Bool
is_overweight limit total e = exceeds_weight limit total e.value_minor

abbrev pub is_bad_exposure_policy : ExposureLimitInput → Bool
is_bad_exposure_policy input =
    not (basis_point_limit_is_valid input.max_instrument_basis_points)
    || not (basis_point_limit_is_valid input.max_asset_class_basis_points)
    || not (basis_point_limit_is_valid input.max_risky_asset_basis_points)

abbrev pub is_bad_exposure_input : ExposureLimitInput → Bool
is_bad_exposure_input input =
    leb_ℤ input.portfolio_value_minor (pos 0)
    || ltb_ℤ input.risky_asset_value_minor (pos 0)
    || ltb_ℤ input.portfolio_value_minor input.risky_asset_value_minor
    || not (exposures_are_valid input.instruments input.portfolio_value_minor)
    || not (exposures_are_valid input.asset_classes input.portfolio_value_minor)

-- The decision that names an exposure over its limit.
abbrev pub overweight_decision :
    ExposureLimitInput → ExposureLimitReasonCode → ExposureValue → ExposureLimitDecision
overweight_decision input reason e =
    exposure_decision blocked_status reason (some e.key)
      (some (basis_points_floor e.value_minor input.portfolio_value_minor))

-- The tests on a valid input, given the first instrument and the first asset class over its limit.
unfoldable pub compare_exposure_limits :
    ExposureLimitInput → Option ExposureValue → Option ExposureValue → ExposureLimitDecision
compare_exposure_limits input (some instrument) asset_class =
    overweight_decision input instrument_weight_limit_exceeded instrument
compare_exposure_limits input none (some asset_class) =
    overweight_decision input asset_class_weight_limit_exceeded asset_class
compare_exposure_limits input none none =
    if exceeds_weight input.max_risky_asset_basis_points input.portfolio_value_minor
      input.risky_asset_value_minor
    then overweight_decision input risky_asset_weight_limit_exceeded
        (record { key = text "RISKY_ASSETS"; value_minor = input.risky_asset_value_minor })
    else exposure_decision ready_status exposure_limits_ok none none

unfoldable pub evaluate_exposure_limits : ExposureLimitInput → ExposureLimitDecision
unfolding compare_exposure_limits
evaluate_exposure_limits input =
    if is_bad_exposure_policy input
    then exposure_decision blocked_status exposure_limit_policy_invalid none none
    else if is_bad_exposure_input input
    then exposure_decision blocked_status exposure_limit_input_invalid none none
    else compare_exposure_limits input
        (find (is_overweight input.max_instrument_basis_points input.portfolio_value_minor)
          input.instruments)
        (find (is_overweight input.max_asset_class_basis_points input.portfolio_value_minor)
          input.asset_classes)
