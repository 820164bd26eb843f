-- ===== src/Domain/Band.antt =====
-- packages/domain/src/allocation-band.ts and weight.ts: the automatic band `MIXED_V1` around a target,
-- and weights in basis points.
pub mod Resolved
mod Examples
use portfolio_rebalancer.Prelude.{
  ℤ, pos, ◌+ℤ◌, ◌-ℤ◌, ◌*ℤ◌, ◌/ℤ◌, ltb_ℤ, leb_ℤ, ◌||◌, if◌then◌else◌, Result, ok, err, ◌>>=◌, ◌>>◌,
  throw_if,
}
use portfolio_rebalancer.Domain.{
  basis_point_scale, DomainError, target_out_of_range, weight_out_of_range, bad_weight_value,
}

abbrev pub max_allowed_drift_basis_points : ℤ
max_allowed_drift_basis_points = pos 500

-- The field `policyVersion` is the constant `MIXED_V1` and is left out.
pub record ResolvedAllocationBand : Type 0 where
  pub allowed_drift_basis_points : ℤ
  pub lower_basis_points : ℤ
  pub upper_basis_points : ℤ

unfoldable pub resolve_auto_allocation_band : ℤ → Result DomainError ResolvedAllocationBand
resolve_auto_allocation_band target = do
  throw_if (ltb_ℤ target (pos 0) || ltb_ℤ basis_point_scale target) target_out_of_range
  let relative = (target +ℤ pos 3) /ℤ pos 4
  let allowed =
      if ltb_ℤ relative max_allowed_drift_basis_points
      then relative
      else max_allowed_drift_basis_points
  ok (record {
    allowed_drift_basis_points = allowed;
    lower_basis_points = if ltb_ℤ allowed target then target -ℤ allowed else pos 0;
    upper_basis_points =
        if ltb_ℤ (target +ℤ allowed) basis_point_scale
        then target +ℤ allowed
        else basis_point_scale;
  })

pub record Weight : Type 0 where
  pub basis_points : ℤ

unfoldable pub weight_from_basis_points : ℤ → Result DomainError Weight
weight_from_basis_points points = do
  throw_if (ltb_ℤ points (pos 0) || ltb_ℤ basis_point_scale points) weight_out_of_range
  ok (record { basis_points = points })

unfoldable pub weight_from_value : ℤ → ℤ → Result DomainError Weight
unfolding weight_from_basis_points
weight_from_value value total = do
  throw_if (ltb_ℤ value (pos 0) || leb_ℤ total (pos 0) || ltb_ℤ total value) bad_weight_value
  weight_from_basis_points (value *ℤ basis_point_scale /ℤ total)
