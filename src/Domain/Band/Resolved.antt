-- ===== src/Domain/Band/Resolved.antt =====
-- The automatic band surrounds its target, and weights stay within 0 and 10000 basis points.
use portfolio_rebalancer.Prelude.{
  ℕ, ◌*◌, ◌/◌, ◌≤◌, ◌<◌, ℤ, pos, negsuc, ◌+ℤ◌, ◌-ℤ◌, ◌*ℤ◌, ◌/ℤ◌, ◌≤ℤ◌, ◌<ℤ◌, ok, succeeds, true,
  arith, ◌≡◌, ◌↔◌, ◌⊎◌,
}
use portfolio_rebalancer.Domain.{basis_point_scale}
use portfolio_rebalancer.Domain.Band.{
  ResolvedAllocationBand, resolve_auto_allocation_band, Weight, weight_from_value,
}

-- The drift is a quarter of the target, rounded up, or 500 basis points if that is less.
abbrev pub IsAllowedDrift : ℤ → ℤ → Type 0
IsAllowedDrift target drift =
    (drift ≤ℤ pos 500)
    × (pos 4 *ℤ drift <ℤ target +ℤ pos 4)
    × ((target ≤ℤ pos 4 *ℤ drift) ⊎ (drift ≡ pos 500))

-- Whenever a band is resolved, the drift is the smaller of a quarter of the target, rounded up, and 500
-- basis points; the band holds its target and lies within 0 and 10000; and each edge is at
-- the drift from the target, unless the scale's end is nearer.
pub resolved_band :
    (target : ℤ) {band : ResolvedAllocationBand}
    → resolve_auto_allocation_band target ≡ ok band
    → IsAllowedDrift target band.allowed_drift_basis_points
      × (pos 0 ≤ℤ band.lower_basis_points)
      × (band.lower_basis_points ≤ℤ target)
      × (target ≤ℤ band.upper_basis_points)
      × (band.upper_basis_points ≤ℤ basis_point_scale)
      × ((band.lower_basis_points ≡ target -ℤ band.allowed_drift_basis_points)
          ⊎ (band.lower_basis_points ≡ pos 0) × (target ≤ℤ band.allowed_drift_basis_points))
      × ((band.upper_basis_points ≡ target +ℤ band.allowed_drift_basis_points)
          ⊎ (band.upper_basis_points ≡ basis_point_scale)
            × (basis_point_scale ≤ℤ target +ℤ band.allowed_drift_basis_points))
unfolding resolve_auto_allocation_band ◌+ℤ◌ ◌-ℤ◌ ◌*ℤ◌ ◌/ℤ◌
resolved_band target h = ground arith

ratio-le : (v t : ℕ) → 0 < t → v ≤ t → v * 10000 / t ≤ 10000
ratio-le v t p h = grind arith

-- A band is resolved exactly for a target from 0 to 10000 basis points.
pub band_returns_iff :
    (target : ℤ)
    → (succeeds (resolve_auto_allocation_band target) ≡ true)
      ↔ ((pos 0 ≤ℤ target) × (target ≤ℤ basis_point_scale))
unfolding resolve_auto_allocation_band
band_returns_iff target = ground arith

-- A value has a given weight exactly when it lies between 0 and the total, the total is positive, and
-- the weight is its share of the total in basis points, rounded down.
pub weight_from_value_iff :
    (value total : ℤ) (w : Weight)
    → (weight_from_value value total ≡ ok w) ↔ (
        (pos 0 ≤ℤ value)
        × (pos 0 <ℤ total)
        × (value ≤ℤ total)
        × (w.basis_points ≡ value *ℤ basis_point_scale /ℤ total))
unfolding weight_from_value ◌*ℤ◌ ◌/ℤ◌
weight_from_value_iff (pos v) (pos t) w =
    (λ h. ground arith, λ (p, q, r, e). ground (arith, ratio-le v t))
weight_from_value_iff (negsuc v) t w = (λ h. ground arith, λ (p, q, r, e). absurd (omega arith))
weight_from_value_iff (pos v) (negsuc t) w =
    (λ h. ground arith, λ (p, q, r, e). absurd (omega arith))
