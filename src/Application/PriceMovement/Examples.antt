-- ===== src/Application/PriceMovement/Examples.antt =====
-- A price that rises by 1.25 percent under a limit of 1.5 percent.
use portfolio_rebalancer.Prelude.{
  pos, ◌*ℤ◌, ◌-ℤ◌, ◌+ℤ◌, Text, text, text_eq, parse_offset_date_time, true, some, ◌≡◌, refl,
}
use portfolio_rebalancer.Broker.{PriceQuote}
use portfolio_rebalancer.Domain.Money.{usd}
use portfolio_rebalancer.Application.ExecutionGate.{us}
use portfolio_rebalancer.Application.PriceMovement.{
  PriceMovementInput, parse_positive_decimal, decision, compare_prices, evaluation,
  evaluate_price_movement,
}
use portfolio_rebalancer.Application.PriceMovement.Ready.{IsAcceptable, price_movement_proceeds_iff}

abbrev quote_at : Text → Text → PriceQuote
quote_at price observed_at = record {
  market_country = us;
  symbol = text "SPY";
  price = price;
  currency = usd;
  observed_at = some observed_at;
}

abbrev movement_now : PriceMovementInput
movement_now = record {
  previous = quote_at (text "8") (text "2024-03-04T09:00:00Z");
  current = quote_at (text "8.10") (text "2024-03-04T09:00:30Z");
  max_absolute_change_basis_points = pos 150;
}

moved_now :
    (evaluate_price_movement parse_offset_date_time movement_now).change_basis_points_floor
    ≡ some (pos 125)
unfolding evaluate_price_movement evaluation compare_prices decision parse_positive_decimal
    parse_offset_date_time text_eq ◌*ℤ◌ ◌-ℤ◌ ◌+ℤ◌
moved_now = refl

proceeds_now : (evaluate_price_movement parse_offset_date_time movement_now).can_proceed ≡ true
unfolding evaluate_price_movement evaluation compare_prices decision parse_positive_decimal
    parse_offset_date_time text_eq ◌*ℤ◌ ◌-ℤ◌ ◌+ℤ◌
proceeds_now = refl

price_movement_proceeds_iff_example :
    ((evaluate_price_movement parse_offset_date_time movement_now).can_proceed ≡ true
      → IsAcceptable parse_offset_date_time movement_now)
    × (IsAcceptable parse_offset_date_time movement_now
        → (evaluate_price_movement parse_offset_date_time movement_now).can_proceed ≡ true)
price_movement_proceeds_iff_example =
    price_movement_proceeds_iff parse_offset_date_time movement_now
