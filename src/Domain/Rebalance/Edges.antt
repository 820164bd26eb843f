-- ===== src/Domain/Rebalance/Edges.antt =====
-- The `BAND_EDGE` policy: assets inside their band stay, the others go to the nearest edge.
use portfolio_rebalancer.Prelude.{
  ℤ, pos, ◌+ℤ◌, ◌-ℤ◌, ◌*ℤ◌, ◌/ℤ◌, ◌≤ℤ◌, ◌<ℤ◌, List, All, All-map, All-of_map, ok, arith, ◌≡◌, ◌⊎◌,
  if◌then◌else◌, true, false,
}
use portfolio_rebalancer.Domain.{basis_point_scale}
use portfolio_rebalancer.Domain.Allocation.{AllocationBandInput, is_outside_allocation_band}
use portfolio_rebalancer.Domain.Rebalance.{
  band_edge, in_range, below_lower, above_upper, RebalanceAssetInput, RebalanceAssetDecision,
  RebalanceTargetResult, is_in_range, classify_band, desired_band_edge_value,
  calculate_rebalance_targets,
}
use portfolio_rebalancer.Domain.Rebalance.Valid.{IsBanded}
use portfolio_rebalancer.Domain.Rebalance.Targets.{
  total_of, decision_of, result-eq, ok→IsRebalanceable,
}

abbrev pub to_band_input : RebalanceAssetInput → ℤ → AllocationBandInput
to_band_input input total = record {
  value_minor = input.value_minor;
  total_value_minor = total;
  lower_basis_points = input.lower_basis_points;
  upper_basis_points = input.upper_basis_points;
}

-- On a banded asset of a portfolio of positive value the two band tests of the package agree:
-- `isOutsideAllocationBand` returns true exactly when `classifyBand` does not answer IN_RANGE.
pub band_tests_agree :
    (input : RebalanceAssetInput) (total : ℤ)
    → IsBanded input
    → pos 0 <ℤ total
    → is_outside_allocation_band (to_band_input input total)
      ≡ ok (if is_in_range (classify_band input total) then false else true)
unfolding is_outside_allocation_band classify_band
band_tests_agree input total b p = ground (arith, b)

-- How a decision of the policy stands to the total: it lies in its band and stays, or it lies outside
-- and moves to the nearest amount that its lower or its upper edge allows.
abbrev pub IsAtEdge : ℤ → RebalanceAssetDecision → Type 0
IsAtEdge total d =
    ((d.reason ≡ in_range)
      × (d.input.lower_basis_points *ℤ total ≤ℤ d.input.value_minor *ℤ basis_point_scale)
      × (d.input.value_minor *ℤ basis_point_scale ≤ℤ d.input.upper_basis_points *ℤ total)
      × (d.desired_value_minor ≡ d.input.value_minor)
      × (d.delta_minor ≡ pos 0))
    ⊎ ((d.reason ≡ below_lower)
        × (d.input.value_minor *ℤ basis_point_scale <ℤ d.input.lower_basis_points *ℤ total)
        × (d.delta_minor ≡ d.desired_value_minor -ℤ d.input.value_minor)
        × (d.input.lower_basis_points *ℤ total ≤ℤ d.desired_value_minor *ℤ basis_point_scale)
        × (d.desired_value_minor *ℤ basis_point_scale
            <ℤ d.input.lower_basis_points *ℤ total +ℤ basis_point_scale)
        × (pos 0 <ℤ d.delta_minor))
    ⊎ ((d.reason ≡ above_upper)
        × (d.input.upper_basis_points *ℤ total <ℤ d.input.value_minor *ℤ basis_point_scale)
        × (d.delta_minor ≡ d.desired_value_minor -ℤ d.input.value_minor)
        × (d.desired_value_minor *ℤ basis_point_scale ≤ℤ d.input.upper_basis_points *ℤ total)
        × (d.input.upper_basis_points *ℤ total
            <ℤ d.desired_value_minor *ℤ basis_point_scale +ℤ basis_point_scale)
        × (d.delta_minor <ℤ pos 0))

module _ (input : RebalanceAssetInput) (total : ℤ) where
  abbrev edge : ℤ
  edge = desired_band_edge_value input (classify_band input total) total

  abbrev edge_decision : RebalanceAssetDecision
  edge_decision = record {
    input = input;
    reason = classify_band input total;
    desired_value_minor = edge;
    delta_minor = edge -ℤ input.value_minor;
  }

  edge-IsAtEdge : IsBanded input → pos 0 <ℤ total → IsAtEdge total edge_decision
  unfolding classify_band desired_band_edge_value ◌+ℤ◌ ◌-ℤ◌ ◌*ℤ◌ ◌/ℤ◌
  edge-IsAtEdge b p = ground arith

-- Under the `BAND_EDGE` policy each decision keeps an asset whose value lies in its band, the edges
-- included; an asset whose value lies below its band buys up to the least amount that the lower edge
-- allows; one whose value lies above sells down to the largest amount that the upper edge allows.
-- The reason of the decision names the case.
pub band_edge_nearest :
    (inputs : List RebalanceAssetInput) {r : RebalanceTargetResult}
    → calculate_rebalance_targets inputs band_edge ≡ ok r
    → All (IsAtEdge r.total_value_minor) r.decisions
band_edge_nearest inputs h =
    let v = ok→IsRebalanceable inputs band_edge h in
    rw (result-eq inputs band_edge h) (
      All-of_map (IsAtEdge (total_of inputs)) (decision_of band_edge inputs) inputs (
        All-map (λ input b. edge-IsAtEdge input (total_of inputs) b v.positive) inputs
          v.well_formed.banded))
