-- ===== src/Domain/Allocation/Examples.antt =====
-- A portfolio whose weights do not come out even.
use portfolio_rebalancer.Prelude.{
  pos, negsuc, ◌+ℤ◌, ◌-ℤ◌, ◌*ℤ◌, ◌/ℤ◌, ◌≤ℤ◌, ◌<ℤ◌, sum_ℤ, sum_from, text, text_eq, contains, set_of,
  set_from, List, [], ◌∷◌, length, All, ok, ◌≡◌, refl, ◌↔◌,
}
use portfolio_rebalancer.Domain.{basis_point_scale}
use portfolio_rebalancer.Domain.Allocation.{
  AllocationInput, AllocationSnapshot, to_result, calculate_allocation_snapshot,
}
use portfolio_rebalancer.Domain.Allocation.Valid.{IsEvaluable, IsEvaluation, snapshot_iff}
use portfolio_rebalancer.Domain.Allocation.Weights.{weights, drifts, snapshot_weights}

abbrev thirds : List AllocationInput
thirds =
    record { id = text "a"; value_minor = pos 1; target_basis_points = pos 5000 }
    ∷ record { id = text "b"; value_minor = pos 2; target_basis_points = pos 5000 }
    ∷ []

abbrev evaluated : AllocationSnapshot
evaluated = record {
  total_value_minor = pos 3;
  allocations =
      record {
        id = text "a";
        value_minor = pos 1;
        target_basis_points = pos 5000;
        current_basis_points = pos 3333;
        drift_basis_points = negsuc 1666;
      }
      ∷ record {
        id = text "b";
        value_minor = pos 2;
        target_basis_points = pos 5000;
        current_basis_points = pos 6666;
        drift_basis_points = pos 1666;
      }
      ∷ [];
}

computed : calculate_allocation_snapshot thirds ≡ ok evaluated
unfolding calculate_allocation_snapshot to_result sum_ℤ sum_from set_of set_from contains text_eq
    ◌+ℤ◌ ◌-ℤ◌ ◌*ℤ◌ ◌/ℤ◌
computed = refl

snapshot_weights_example :
    (weights evaluated ≤ℤ basis_point_scale)
    × (basis_point_scale <ℤ weights evaluated +ℤ pos (length thirds))
    × (drifts evaluated ≡ weights evaluated -ℤ basis_point_scale)
    × All
        (λ r. (pos 0 ≤ℤ r.current_basis_points) × (r.current_basis_points ≤ℤ basis_point_scale))
        evaluated.allocations
snapshot_weights_example = snapshot_weights thirds computed

snapshot_iff_example :
    (calculate_allocation_snapshot thirds ≡ ok evaluated)
    ↔ (IsEvaluable thirds × IsEvaluation thirds evaluated)
snapshot_iff_example = snapshot_iff thirds evaluated
