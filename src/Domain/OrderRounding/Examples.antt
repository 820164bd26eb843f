-- ===== src/Domain/OrderRounding/Examples.antt =====
-- A sale that is rounded.
use portfolio_rebalancer.Prelude.{
  pos, ◌-ℤ◌, ◌*ℤ◌, ◌/ℤ◌, text, some, succeeds, true, ok, ◌≡◌, refl, ◌↔◌,
}
use portfolio_rebalancer.Domain.Rebalance.{validate_non_empty_id}
use portfolio_rebalancer.Domain.OrderRounding.{
  sell, orderable, KrOrderRoundingInput, RoundedKrOrder, price_order, round_kr_order,
}
use portfolio_rebalancer.Domain.OrderRounding.Bounds.{
  IsRounded, IsRoundable, round_kr_order_bounds, round_kr_order_returns_iff,
}

abbrev sale : KrOrderRoundingInput
sale = record {
  id = text "etf";
  side = sell;
  desired_notional_minor = pos 1000;
  price_minor = pos 300;
  minimum_order_minor = pos 500;
  available_quantity = some (pos 5);
}

abbrev rounded : RoundedKrOrder
rounded = record {
  id = text "etf";
  side = sell;
  status = orderable;
  quantity = pos 3;
  notional_minor = pos 900;
  unallocated_minor = pos 100;
}

computed : round_kr_order sale ≡ ok rounded
unfolding round_kr_order price_order validate_non_empty_id ◌-ℤ◌ ◌*ℤ◌ ◌/ℤ◌
computed = refl

round_kr_order_bounds_example : IsRounded sale rounded
round_kr_order_bounds_example = round_kr_order_bounds sale computed

round_kr_order_returns_iff_example : (succeeds (round_kr_order sale) ≡ true) ↔ IsRoundable sale
round_kr_order_returns_iff_example = round_kr_order_returns_iff sale
