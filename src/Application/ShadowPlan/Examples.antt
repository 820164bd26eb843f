-- ===== src/Application/ShadowPlan/Examples.antt =====
-- A portfolio of cash and one fund, half of each wanted, with less spendable cash than it needs.
use portfolio_rebalancer.Prelude.{
  pos, ◌+ℤ◌, ◌-ℤ◌, ◌*ℤ◌, ◌/ℤ◌, ◌%ℤ◌, sum_ℤ, sum_from, sort, insert, map_ok, for_each, text, text_eq,
  compare_text, contains, set_of, set_from, map_get, map_set, map_from, map_of, true, none, some,
  List, [], ◌∷◌, ◌≡◌, refl,
}
use portfolio_rebalancer.Domain.Allocation.{to_result, calculate_allocation_snapshot}
use portfolio_rebalancer.Domain.Shares.{
  compare_descending, by_remainder, slice_to, bonus_ids, award,
}
use portfolio_rebalancer.Domain.Rebalance.{
  target, validate_non_empty_id, validate_unique_ids, validate_asset, validate_rebalance_assets,
  classify_band, desired_band_edge_value, ceil_divide, provisional_share,
  allocate_exact_target_values, get_required_map_value, target_values_for, decide,
  calculate_rebalance_targets,
}
use portfolio_rebalancer.Domain.OrderRounding.{price_order, round_kr_order}
use portfolio_rebalancer.Domain.Cash.{by_need, fill, allocate_spendable_cash}
use portfolio_rebalancer.Domain.Projection.{
  project_input, project_allocation, project_allocation_after_rounded_trades,
}
use portfolio_rebalancer.Application.ShadowPlan.{
  securities, cash, planned, ShadowPlanAssetClassInput, CreateShadowPlanInput,
}
use portfolio_rebalancer.Application.ShadowPlan.Normalize.{
  check_instruments, check_classes, validate_and_normalize_input,
}
use portfolio_rebalancer.Application.ShadowPlan.Instruments.{
  provisional_value, allocate_desired_instrument_values,
}
use portfolio_rebalancer.Application.ShadowPlan.Orders.{
  to_executable_order, orders_of, create_deferred_buy_need, deferred_buy_reasons, round_sale,
  defer_purchase, sell_phase, asset_candidate, instrument_candidate, round_purchase, fund_assets,
  defer_rests, funding_entry, buy_phase,
}
use portfolio_rebalancer.Application.ShadowPlan.Plan.{
  create_result, blocked_plan, asset_decision, instruments_of, add_deltas, with_kind,
  project_after_orders, plan_reason_codes, compare_orders, compare_deferred_buy_needs, plan_content,
  create_shadow_rebalance_plan,
}
use portfolio_rebalancer.Application.ShadowPlan.Phases.{cost}
use portfolio_rebalancer.Application.ShadowPlan.Safe.{IsOnePhase, plan-IsOnePhase}

abbrev classes_now : List ShadowPlanAssetClassInput
classes_now =
    record {
      id = text "equity";
      kind = securities;
      current_value_minor = pos 100000;
      target_basis_points = pos 5000;
      lower_basis_points = pos 4500;
      upper_basis_points = pos 5500;
      instruments =
          record {
            market_country = text "KR";
            currency = text "KRW";
            symbol = text "069500";
            current_value_minor = pos 100000;
            target_within_asset_points = pos 10000;
            current_quantity = pos 10;
            price_minor = some (pos 10000);
            available_sell_quantity = none;
          }
          ∷ [];
    }
    ∷ record {
      id = text "cash";
      kind = cash;
      current_value_minor = pos 1000000;
      target_basis_points = pos 5000;
      lower_basis_points = pos 4500;
      upper_basis_points = pos 5500;
      instruments = [];
    }
    ∷ []

abbrev input_now : CreateShadowPlanInput
input_now = record {
  identity = record {
    pinned_snapshot_id = some (text "s1");
    current_snapshot_id = some (text "s1");
    pinned_snapshot_digest = some (text "d1");
    current_snapshot_digest = some (text "d1");
    pinned_config_version_id = some (text "v1");
    current_config_version_id = some (text "v1");
  };
  asset_classes = classes_now;
  managed_cash_minor = some (pos 1000000);
  spendable_cash_minor = some (pos 305000);
  return_policy = target;
  minimum_order_minor = pos 1000;
  order_prerequisites = record {
    order_type = text "LIMIT";
    time_in_force = text "DAY";
    whole_shares_only = true;
  };
}

-- 30 shares of the 45 that the target asks for.
planned_now :
    ((create_shadow_rebalance_plan input_now).status ≡ planned)
    × (cost (create_shadow_rebalance_plan input_now).executable_orders ≡ pos 300000)
unfolding create_shadow_rebalance_plan validate_and_normalize_input check_classes check_instruments
    plan_content asset_decision instruments_of allocate_desired_instrument_values provisional_value
    sell_phase buy_phase fund_assets defer_rests funding_entry round_purchase round_sale
    defer_purchase asset_candidate instrument_candidate deferred_buy_reasons
    create_deferred_buy_need orders_of to_executable_order add_deltas project_after_orders with_kind
    plan_reason_codes compare_orders compare_deferred_buy_needs create_result blocked_plan
    calculate_allocation_snapshot to_result compare_descending by_remainder slice_to bonus_ids award
    validate_non_empty_id validate_unique_ids validate_asset validate_rebalance_assets classify_band
    desired_band_edge_value ceil_divide provisional_share allocate_exact_target_values
    get_required_map_value target_values_for decide calculate_rebalance_targets price_order
    round_kr_order by_need fill allocate_spendable_cash project_input project_allocation
    project_allocation_after_rounded_trades ◌+ℤ◌ ◌-ℤ◌ ◌*ℤ◌ ◌/ℤ◌ ◌%ℤ◌ sum_ℤ sum_from sort insert
    map_ok for_each text_eq compare_text contains set_of set_from map_get map_set map_from map_of
planned_now = (refl, refl)

plan-IsOnePhase_example : IsOnePhase input_now (create_shadow_rebalance_plan input_now)
plan-IsOnePhase_example = plan-IsOnePhase input_now
