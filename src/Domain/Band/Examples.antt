-- ===== src/Domain/Band/Examples.antt =====
-- A band at the lower end of the scale, and a weight.
use portfolio_rebalancer.Prelude.{
  pos, ◌+ℤ◌, ◌-ℤ◌, ◌*ℤ◌, ◌/ℤ◌, ◌≤ℤ◌, ◌<ℤ◌, succeeds, true, ok, ◌≡◌, refl, ◌↔◌, ◌⊎◌,
}
use portfolio_rebalancer.Domain.{basis_point_scale}
use portfolio_rebalancer.Domain.Band.{
  ResolvedAllocationBand, resolve_auto_allocation_band, Weight, weight_from_value,
}
use portfolio_rebalancer.Domain.Band.Resolved.{
  IsAllowedDrift, resolved_band, band_returns_iff, weight_from_value_iff,
}

abbrev small_band : ResolvedAllocationBand
small_band = record {
  allowed_drift_basis_points = pos 251;
  lower_basis_points = pos 750;
  upper_basis_points = pos 1252;
}

computed : resolve_auto_allocation_band (pos 1001) ≡ ok small_band
unfolding resolve_auto_allocation_band ◌+ℤ◌ ◌-ℤ◌ ◌/ℤ◌
computed = refl

resolved_band_example :
    IsAllowedDrift (pos 1001) small_band.allowed_drift_basis_points
    × (pos 0 ≤ℤ small_band.lower_basis_points)
    × (small_band.lower_basis_points ≤ℤ pos 1001)
    × (pos 1001 ≤ℤ small_band.upper_basis_points)
    × (small_band.upper_basis_points ≤ℤ basis_point_scale)
    × ((small_band.lower_basis_points ≡ pos 1001 -ℤ small_band.allowed_drift_basis_points)
        ⊎ (small_band.lower_basis_points ≡ pos 0)
          × (pos 1001 ≤ℤ small_band.allowed_drift_basis_points))
    × ((small_band.upper_basis_points ≡ pos 1001 +ℤ small_band.allowed_drift_basis_points)
        ⊎ (small_band.upper_basis_points ≡ basis_point_scale)
          × (basis_point_scale ≤ℤ pos 1001 +ℤ small_band.allowed_drift_basis_points))
resolved_band_example = resolved_band (pos 1001) computed

band_returns_iff_example :
    (succeeds (resolve_auto_allocation_band (pos 1001)) ≡ true)
    ↔ ((pos 0 ≤ℤ pos 1001) × (pos 1001 ≤ℤ basis_point_scale))
band_returns_iff_example = band_returns_iff (pos 1001)

abbrev third : Weight
third = record { basis_points = pos 3333 }

weight_from_value_iff_example : (weight_from_value (pos 1) (pos 3) ≡ ok third) ↔ (
    (pos 0 ≤ℤ pos 1)
    × (pos 0 <ℤ pos 3)
    × (pos 1 ≤ℤ pos 3)
    × (third.basis_points ≡ pos 1 *ℤ basis_point_scale /ℤ pos 3))
weight_from_value_iff_example = weight_from_value_iff (pos 1) (pos 3) third
