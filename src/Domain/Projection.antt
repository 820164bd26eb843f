-- ===== src/Domain/Projection.antt =====
-- packages/domain/src/rebalance.ts, `projectAllocationAfterRoundedTrades`: the weights that the
-- portfolio would have after its rounded trades.
pub mod Conserved
pub mod Returns
mod Examples
use portfolio_rebalancer.Prelude.{
  ℤ, pos, ◌+ℤ◌, ltb_ℤ, Text, text_eq, Bool, not, List, map, find, if◌then◌else◌, Result, ok, err,
  ◌>>=◌, ◌>>◌, throw_if, map_ok,
}
use portfolio_rebalancer.Domain.{DomainError, negative_projection, missing_projection}
use portfolio_rebalancer.Domain.Allocation.{AllocationResult, calculate_allocation_snapshot}
use portfolio_rebalancer.Domain.Rebalance.{
  RebalanceAssetInput, is_in_range, classify_band, validate_rebalance_assets, to_allocation_input,
  or_throw,
}

pub record ProjectedAllocationInput : Type 0 where
  pub asset : RebalanceAssetInput
  pub delta_minor : ℤ

pub record ProjectedAllocation : Type 0 where
  pub id : Text
  pub value_minor : ℤ
  pub target_basis_points : ℤ
  pub lower_basis_points : ℤ
  pub upper_basis_points : ℤ
  pub current_basis_points : ℤ
  pub drift_basis_points : ℤ
  pub outside_band : Bool

pub record ProjectedAllocationResult : Type 0 where
  pub total_value_minor : ℤ
  pub allocations : List ProjectedAllocation

-- The body of the first `map` of `projectAllocationAfterRoundedTrades`.
unfoldable pub project_input : ProjectedAllocationInput → Result DomainError RebalanceAssetInput
project_input input = do
  let value = input.asset.value_minor +ℤ input.delta_minor
  throw_if (ltb_ℤ value (pos 0)) (negative_projection input.asset.id)
  ok (record (input.asset) { value_minor = value })

unfoldable pub project_allocation :
    List RebalanceAssetInput → ℤ → AllocationResult → Result DomainError ProjectedAllocation
project_allocation projected total allocation = do
  source ←
      or_throw (missing_projection allocation.id)
        (find (λ input. text_eq input.id allocation.id) projected)
  ok (record {
    id = allocation.id;
    value_minor = allocation.value_minor;
    target_basis_points = allocation.target_basis_points;
    lower_basis_points = source.lower_basis_points;
    upper_basis_points = source.upper_basis_points;
    current_basis_points = allocation.current_basis_points;
    drift_basis_points = allocation.drift_basis_points;
    outside_band = not (is_in_range (classify_band source total));
  })

unfoldable pub project_allocation_after_rounded_trades :
    List ProjectedAllocationInput → Result DomainError ProjectedAllocationResult
unfolding project_input project_allocation
project_allocation_after_rounded_trades inputs = do
  projected ← map_ok project_input inputs
  validate_rebalance_assets projected
  snapshot ← calculate_allocation_snapshot (map to_allocation_input projected)
  let total = snapshot.total_value_minor
  allocations ← map_ok (project_allocation projected total) snapshot.allocations
  ok (record { total_value_minor = total; allocations = allocations })
