-- ===== src/Application/RiskLimits/Exposure/Concentration.antt =====
-- When the projected exposure is within its limits.
use portfolio_rebalancer.Prelude.{
  ℤ, pos, ◌*ℤ◌, ◌≤ℤ◌, ◌<ℤ◌, is_blank, set_of, Distinct, length-set_of_iff, true, false, not, List,
  map, all, length, find, All, all_iff, find_iff, All-map, All-zip, none, arith, ◌≡◌, ◌↔◌,
}
use portfolio_rebalancer.Application.RiskLimits.Exposure.{
  ExposureValue, ExposureLimitInput, is_within_portfolio, exposures_are_valid,
  basis_point_limit_is_valid, is_overweight, is_bad_exposure_policy, is_bad_exposure_input,
  compare_exposure_limits, evaluate_exposure_limits,
}

abbrev pub IsBasisPoints : ℤ → Type 0
IsBasisPoints n = (pos 0 ≤ℤ n) × (n ≤ℤ pos 10000)

-- Exposures of a portfolio of value `total`, none of them above `limit` basis points.
pub record IsSpread (limit total : ℤ) (exposures : List ExposureValue) : Type 0 where
  pub named : all (λ key. not (is_blank key)) (map (λ e. e.key) exposures) ≡ true
  pub distinct : Distinct (map (λ e. e.key) exposures)
  pub sized :
      All
        (λ e.
          (pos 0 ≤ℤ e.value_minor)
          × (e.value_minor ≤ℤ total)
          × (e.value_minor *ℤ pos 10000 ≤ℤ limit *ℤ total))
        exposures

-- A projected portfolio within the limits.
pub record IsDiversified (input : ExposureLimitInput) : Type 0 where
  pub instrument_limit : IsBasisPoints input.max_instrument_basis_points
  pub asset_class_limit : IsBasisPoints input.max_asset_class_basis_points
  pub risky_limit : IsBasisPoints input.max_risky_asset_basis_points
  pub total : pos 0 <ℤ input.portfolio_value_minor
  pub instruments :
      IsSpread input.max_instrument_basis_points input.portfolio_value_minor input.instruments
  pub asset_classes :
      IsSpread input.max_asset_class_basis_points input.portfolio_value_minor input.asset_classes
  pub risky :
      (pos 0 ≤ℤ input.risky_asset_value_minor)
      × (input.risky_asset_value_minor ≤ℤ input.portfolio_value_minor)
      × (input.risky_asset_value_minor *ℤ pos 10000
          ≤ℤ input.max_risky_asset_basis_points *ℤ input.portfolio_value_minor)

-- The tests of the code, all passed.
passed_iff :
    (input : ExposureLimitInput)
    → ((evaluate_exposure_limits input).can_proceed ≡ true) ↔ (
        (is_bad_exposure_policy input ≡ false)
        × (is_bad_exposure_input input ≡ false)
        × (find
              (is_overweight input.max_instrument_basis_points input.portfolio_value_minor)
              input.instruments
            ≡ none)
        × (find
              (is_overweight input.max_asset_class_basis_points input.portfolio_value_minor)
              input.asset_classes
            ≡ none)
        × (input.risky_asset_value_minor *ℤ pos 10000
            ≤ℤ input.max_risky_asset_basis_points *ℤ input.portfolio_value_minor))
unfolding evaluate_exposure_limits compare_exposure_limits
passed_iff input = ground arith

policy_iff :
    (input : ExposureLimitInput)
    → (is_bad_exposure_policy input ≡ false) ↔ (
        IsBasisPoints input.max_instrument_basis_points
        × IsBasisPoints input.max_asset_class_basis_points
        × IsBasisPoints input.max_risky_asset_basis_points)
unfolding basis_point_limit_is_valid
policy_iff input = ground arith

valid_iff :
    (input : ExposureLimitInput)
    → (is_bad_exposure_input input ≡ false) ↔ (
        (pos 0 <ℤ input.portfolio_value_minor)
        × (pos 0 ≤ℤ input.risky_asset_value_minor)
        × (input.risky_asset_value_minor ≤ℤ input.portfolio_value_minor)
        × (exposures_are_valid input.instruments input.portfolio_value_minor ≡ true)
        × (exposures_are_valid input.asset_classes input.portfolio_value_minor ≡ true))
valid_iff input = ground arith

exposures_iff :
    (total : ℤ) (exposures : List ExposureValue)
    → let keys = map (λ e. e.key) exposures in
      (exposures_are_valid exposures total ≡ true) ↔ (
        (all (λ key. not (is_blank key)) keys ≡ true)
        × (length (set_of keys) ≡ length keys)
        × (all (is_within_portfolio total) exposures ≡ true))
unfolding exposures_are_valid
exposures_iff total exposures = ground arith

IsSpread-iff :
    (limit total : ℤ) (exposures : List ExposureValue)
    → ((exposures_are_valid exposures total ≡ true)
        × (find (is_overweight limit total) exposures ≡ none))
      ↔ IsSpread limit total exposures
IsSpread-iff limit total exposures = (
  λ (valid, light).
      let (named, distinct, inside) = (exposures_iff total exposures).0 valid in
      record {
        named = named;
        distinct = (length-set_of_iff (map (λ e. e.key) exposures)).0 distinct;
        sized =
            All-zip (λ e a b. (ground (arith, a), ground (arith, a), ground (arith, b))) exposures
              ((all_iff (is_within_portfolio total) exposures).0 inside)
              ((find_iff (is_overweight limit total) exposures).0 light);
      },
  λ v.
      let inside : all (is_within_portfolio total) exposures ≡ true =
        (all_iff (is_within_portfolio total) exposures).1
          (All-map (λ e h. ground (arith, h)) exposures v.sized) in
      (
        (exposures_iff total exposures).1
            (v.named, (length-set_of_iff (map (λ e. e.key) exposures)).1 v.distinct, inside),
        (find_iff (is_overweight limit total) exposures).1
            (All-map (λ e h. ground (arith, h)) exposures v.sized),
      ),
)

-- A projected portfolio passes exactly when the limits are basis points, the portfolio has a value, and
-- every instrument, every asset class and the risky assets together have a value from 0 to the whole
-- and, by cross products, a weight within their limit, where instruments and asset classes have
-- different keys that are not blank.
pub exposure_limits_iff :
    (input : ExposureLimitInput)
    → ((evaluate_exposure_limits input).can_proceed ≡ true) ↔ IsDiversified input
exposure_limits_iff input =
    let instruments =
      IsSpread-iff input.max_instrument_basis_points input.portfolio_value_minor
        input.instruments in
    let classes =
      IsSpread-iff input.max_asset_class_basis_points input.portfolio_value_minor
        input.asset_classes in
    (
      λ h.
          let (policy, valid, instrument, asset_class, light) = (passed_iff input).0 h in
          let (first, second, third) = (policy_iff input).0 policy in
          let (total, risky, part, first_valid, second_valid) = (valid_iff input).0 valid in
          record {
            instrument_limit = first;
            asset_class_limit = second;
            risky_limit = third;
            total = total;
            instruments = instruments.0 (first_valid, instrument);
            asset_classes = classes.0 (second_valid, asset_class);
            risky = (risky, part, light);
          },
      λ v.
          let (first_valid, instrument) = instruments.1 v.instruments in
          let (second_valid, asset_class) = classes.1 v.asset_classes in
          let (risky, part, light) = v.risky in
          (passed_iff input).1 (
            (policy_iff input).1 (v.instrument_limit, v.asset_class_limit, v.risky_limit),
            (valid_iff input).1 (v.total, risky, part, first_valid, second_valid),
            instrument,
            asset_class,
            light,
          ),
    )
