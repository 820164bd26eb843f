-- ===== src/Domain/Projection/Examples.antt =====
-- A portfolio of two assets and its trades.
use portfolio_rebalancer.Prelude.{
  pos, negsuc, ◌+ℤ◌, ◌-ℤ◌, ◌*ℤ◌, ◌/ℤ◌, ◌≤ℤ◌, sum_ℤ, sum_from, text, text_eq, contains, set_of,
  set_from, map_ok, for_each, false, List, [], ◌∷◌, map, All, All2, ok, ◌≡◌, refl, ◌↔◌,
}
use portfolio_rebalancer.Domain.Allocation.{to_result, calculate_allocation_snapshot}
use portfolio_rebalancer.Domain.Rebalance.{
  validate_rebalance_assets, validate_unique_ids, validate_non_empty_id, validate_asset,
  classify_band,
}
use portfolio_rebalancer.Domain.Rebalance.Valid.{IsRebalanceable}
use portfolio_rebalancer.Domain.Projection.{
  ProjectedAllocationInput, ProjectedAllocationResult, project_input, project_allocation,
  project_allocation_after_rounded_trades,
}
use portfolio_rebalancer.Domain.Projection.Conserved.{traded, IsProjection, IsProjection-conserved}
use portfolio_rebalancer.Domain.Projection.Returns.{projection_returns_iff}

abbrev trades : List ProjectedAllocationInput
trades =
    record {
      asset = record {
        id = text "stock";
        value_minor = pos 700;
        target_basis_points = pos 6000;
        lower_basis_points = pos 5500;
        upper_basis_points = pos 6500;
      };
      delta_minor = negsuc 99;
    }
    ∷ record {
      asset = record {
        id = text "bond";
        value_minor = pos 300;
        target_basis_points = pos 4000;
        lower_basis_points = pos 3500;
        upper_basis_points = pos 4500;
      };
      delta_minor = pos 100;
    }
    ∷ []

abbrev projected : ProjectedAllocationResult
projected = record {
  total_value_minor = pos 1000;
  allocations =
      record {
        id = text "stock";
        value_minor = pos 600;
        target_basis_points = pos 6000;
        lower_basis_points = pos 5500;
        upper_basis_points = pos 6500;
        current_basis_points = pos 6000;
        drift_basis_points = pos 0;
        outside_band = false;
      }
      ∷ record {
        id = text "bond";
        value_minor = pos 400;
        target_basis_points = pos 4000;
        lower_basis_points = pos 3500;
        upper_basis_points = pos 4500;
        current_basis_points = pos 4000;
        drift_basis_points = pos 0;
        outside_band = false;
      }
      ∷ [];
}

computed : project_allocation_after_rounded_trades trades ≡ ok projected
unfolding project_allocation_after_rounded_trades project_input project_allocation
    validate_rebalance_assets validate_unique_ids validate_non_empty_id validate_asset classify_band
    calculate_allocation_snapshot to_result map_ok for_each sum_ℤ sum_from set_of set_from contains
    text_eq ◌+ℤ◌ ◌-ℤ◌ ◌*ℤ◌ ◌/ℤ◌
computed = refl

IsProjection-conserved_example :
    (projected.total_value_minor
      ≡ sum_ℤ (λ (input : ProjectedAllocationInput). input.asset.value_minor) trades
        +ℤ sum_ℤ (λ (input : ProjectedAllocationInput). input.delta_minor) trades)
    × All2 (IsProjection projected.total_value_minor) trades projected.allocations
IsProjection-conserved_example = IsProjection-conserved trades computed

projection_returns_iff_example :
    ((r : ProjectedAllocationResult) × (project_allocation_after_rounded_trades trades ≡ ok r)) ↔ (
      All (λ input. pos 0 ≤ℤ (traded input).value_minor) trades
      × IsRebalanceable (map traded trades))
projection_returns_iff_example = projection_returns_iff trades
