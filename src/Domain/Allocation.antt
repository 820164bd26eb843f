-- ===== src/Domain/Allocation.antt =====
-- packages/domain/src/allocation.ts: the current weights of the assets of a portfolio, and the exact
-- test of a band by cross products.
pub mod Valid
pub mod Weights
mod Examples
use portfolio_rebalancer.Prelude.{
  ℤ, pos, ◌-ℤ◌, ◌*ℤ◌, ◌/ℤ◌, ltb_ℤ, leb_ℤ, eq_ℤ, sum_ℤ, Text, is_blank, set_of, Bool, true, false,
  not, ◌||◌, List, map, length, any, ◌==◌, if◌then◌else◌, Result, ok, err, ◌>>=◌, ◌>>◌, throw_if,
}
use portfolio_rebalancer.Domain.{
  basis_point_scale, DomainError, no_assets, bad_asset_ids, negative_asset, empty_portfolio,
  bad_asset_value, bad_band, bad_target_total,
}

pub record AllocationInput : Type 0 where
  pub id : Text
  pub value_minor : ℤ
  pub target_basis_points : ℤ

pub record AllocationResult : Type 0 where
  pub id : Text
  pub value_minor : ℤ
  pub target_basis_points : ℤ
  pub current_basis_points : ℤ
  pub drift_basis_points : ℤ

pub record AllocationSnapshot : Type 0 where
  pub total_value_minor : ℤ
  pub allocations : List AllocationResult

pub record AllocationBandInput : Type 0 where
  pub value_minor : ℤ
  pub total_value_minor : ℤ
  pub lower_basis_points : ℤ
  pub upper_basis_points : ℤ

-- `new Set(ids).size !== ids.length`
abbrev pub has_repeats : List Text → Bool
has_repeats ids = not (length (set_of ids) == length ids)

abbrev pub is_negative_asset : AllocationInput → Bool
is_negative_asset item = ltb_ℤ item.value_minor (pos 0) || ltb_ℤ item.target_basis_points (pos 0)

-- The body of the last `map`.
unfoldable pub to_result : ℤ → AllocationInput → AllocationResult
to_result total item =
    let current = item.value_minor *ℤ basis_point_scale /ℤ total in
    record {
      id = item.id;
      value_minor = item.value_minor;
      target_basis_points = item.target_basis_points;
      current_basis_points = current;
      drift_basis_points = current -ℤ item.target_basis_points;
    }

unfoldable pub calculate_allocation_snapshot :
    List AllocationInput → Result DomainError AllocationSnapshot
calculate_allocation_snapshot inputs = do
  throw_if (length inputs == 0) no_assets
  let ids = map (λ item. item.id) inputs
  throw_if (any is_blank ids || has_repeats ids) bad_asset_ids
  throw_if (any is_negative_asset inputs) negative_asset
  let target_total = sum_ℤ (λ item. item.target_basis_points) inputs
  throw_if (not (eq_ℤ target_total basis_point_scale)) (bad_target_total target_total)
  let total = sum_ℤ (λ item. item.value_minor) inputs
  throw_if (leb_ℤ total (pos 0)) empty_portfolio
  ok (record { total_value_minor = total; allocations = map (to_result total) inputs })

unfoldable pub is_outside_allocation_band : AllocationBandInput → Result DomainError Bool
is_outside_allocation_band band = do
  throw_if (ltb_ℤ value_minor (pos 0) || leb_ℤ total_value_minor (pos 0)) bad_asset_value
  throw_if
      (ltb_ℤ lower_basis_points (pos 0)
        || ltb_ℤ upper_basis_points lower_basis_points
        || ltb_ℤ basis_point_scale upper_basis_points)
      bad_band
  let exact_scaled_value = value_minor *ℤ basis_point_scale
  ok (
      ltb_ℤ exact_scaled_value (lower_basis_points *ℤ total_value_minor)
      || ltb_ℤ (upper_basis_points *ℤ total_value_minor) exact_scaled_value)
  where
    open band use {value_minor, total_value_minor, lower_basis_points, upper_basis_points}
