-- ===== src/Domain/Rebalance/Examples.antt =====
-- A small portfolio on which the theorems about rebalancing are applied.
use portfolio_rebalancer.Prelude.{
  pos, negsuc, ◌≤ℤ◌, ◌+ℤ◌, ◌-ℤ◌, ◌*ℤ◌, ◌/ℤ◌, ◌%ℤ◌, sum_ℤ, sort, text, text_eq, compare_text,
  contains, set_of, map_get, map_set, insert, sum_from, set_from, map_of, map_from, map_ok,
  for_each, List, [], ◌∷◌, All, ok, true, false, if◌then◌else◌, ◌≡◌, refl, ◌↔◌, arith,
}
use portfolio_rebalancer.Domain.Allocation.{
  calculate_allocation_snapshot, to_result, is_outside_allocation_band,
}
use portfolio_rebalancer.Domain.Shares.{
  bonus_ids, award, by_remainder, compare_descending, slice_to,
}
use portfolio_rebalancer.Domain.Rebalance.{
  target, band_edge, above_upper, below_lower, RebalanceAssetInput, RebalanceTargetResult,
  RebalanceAssetDecision, calculate_rebalance_targets, decide, desired_value, ceil_divide,
  target_values_for, validate_rebalance_assets, classify_band, desired_band_edge_value,
  allocate_exact_target_values, provisional_share, get_required_map_value, validate_unique_ids,
  validate_non_empty_id, is_in_range, validate_asset,
}
use portfolio_rebalancer.Domain.Rebalance.Valid.{IsBanded, IsRebalanceable}
use portfolio_rebalancer.Domain.Rebalance.Targets.{returns_iff}
use portfolio_rebalancer.Domain.Rebalance.Exact.{target_exact, floor_share}
use portfolio_rebalancer.Domain.Rebalance.Edges.{
  band_edge_nearest, band_tests_agree, IsAtEdge, to_band_input,
}

abbrev stock : RebalanceAssetInput
stock = record {
  id = text "stock";
  value_minor = pos 700;
  target_basis_points = pos 6000;
  lower_basis_points = pos 5500;
  upper_basis_points = pos 6500;
}

abbrev bond : RebalanceAssetInput
bond = record {
  id = text "bond";
  value_minor = pos 301;
  target_basis_points = pos 4000;
  lower_basis_points = pos 3500;
  upper_basis_points = pos 4500;
}

abbrev portfolio : List RebalanceAssetInput
portfolio = stock ∷ bond ∷ []

abbrev by_targets : RebalanceTargetResult
by_targets = record {
  policy = target;
  total_value_minor = pos 1001;
  decisions =
      record {
        input = stock;
        reason = above_upper;
        desired_value_minor = pos 601;
        delta_minor = negsuc 98;
      }
      ∷ record {
        input = bond;
        reason = below_lower;
        desired_value_minor = pos 400;
        delta_minor = pos 99;
      }
      ∷ [];
}

targets_computed : calculate_rebalance_targets portfolio target ≡ ok by_targets
unfolding calculate_rebalance_targets validate_rebalance_assets validate_unique_ids
    validate_non_empty_id validate_asset calculate_allocation_snapshot to_result decide
    desired_value target_values_for allocate_exact_target_values provisional_share bonus_ids award
    by_remainder compare_descending slice_to classify_band desired_band_edge_value ceil_divide
    get_required_map_value map_ok for_each map_of map_from map_set map_get sort insert sum_ℤ
    sum_from set_of set_from contains text_eq compare_text ◌+ℤ◌ ◌-ℤ◌ ◌*ℤ◌ ◌/ℤ◌ ◌%ℤ◌
targets_computed = refl

target_exact_example :
    (by_targets.total_value_minor
      ≡ sum_ℤ (λ (input : RebalanceAssetInput). input.value_minor) portfolio)
    × (sum_ℤ (λ (d : RebalanceAssetDecision). d.desired_value_minor) by_targets.decisions
        ≡ by_targets.total_value_minor)
    × (sum_ℤ (λ (d : RebalanceAssetDecision). d.delta_minor) by_targets.decisions ≡ pos 0)
    × All
        (λ d.
          (floor_share by_targets.total_value_minor d.input ≤ℤ d.desired_value_minor)
          × (d.desired_value_minor ≤ℤ floor_share by_targets.total_value_minor d.input +ℤ pos 1))
        by_targets.decisions
target_exact_example = target_exact portfolio targets_computed

returns_iff_example :
    ((r : RebalanceTargetResult) × (calculate_rebalance_targets portfolio band_edge ≡ ok r))
    ↔ IsRebalanceable portfolio
returns_iff_example = returns_iff portfolio band_edge

-- Both assets stand outside their bands: stock sells down to 650, bond buys up to 351.
abbrev by_edges : RebalanceTargetResult
by_edges = record {
  policy = band_edge;
  total_value_minor = pos 1001;
  decisions =
      record {
        input = stock;
        reason = above_upper;
        desired_value_minor = pos 650;
        delta_minor = negsuc 49;
      }
      ∷ record {
        input = bond;
        reason = below_lower;
        desired_value_minor = pos 351;
        delta_minor = pos 50;
      }
      ∷ [];
}

edges_computed : calculate_rebalance_targets portfolio band_edge ≡ ok by_edges
unfolding calculate_rebalance_targets validate_rebalance_assets validate_unique_ids
    validate_non_empty_id validate_asset calculate_allocation_snapshot to_result decide
    desired_value target_values_for allocate_exact_target_values provisional_share bonus_ids award
    by_remainder compare_descending slice_to classify_band desired_band_edge_value ceil_divide
    get_required_map_value map_ok for_each map_of map_from map_set map_get sort insert sum_ℤ
    sum_from set_of set_from contains text_eq compare_text ◌+ℤ◌ ◌-ℤ◌ ◌*ℤ◌ ◌/ℤ◌ ◌%ℤ◌
edges_computed = refl

band_edge_nearest_example : All (IsAtEdge by_edges.total_value_minor) by_edges.decisions
band_edge_nearest_example = band_edge_nearest portfolio edges_computed

stock-IsBanded : IsBanded stock
stock-IsBanded = ground arith

band_tests_agree_example :
    is_outside_allocation_band (to_band_input stock (pos 1001))
    ≡ ok (if is_in_range (classify_band stock (pos 1001)) then false else true)
band_tests_agree_example = band_tests_agree stock (pos 1001) stock-IsBanded (omega arith)
