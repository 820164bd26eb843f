-- ===== src/Application/RiskLimits/Examples.antt =====
-- Two orders of a day, and a projected portfolio.
use portfolio_rebalancer.Prelude.{pos, text, true, [], ◌∷◌, ◌≡◌, ◌↔◌}
use portfolio_rebalancer.Application.RiskLimits.Trade.{
  TradeLimitInput, evaluate_trade_notional_limits,
}
use portfolio_rebalancer.Application.RiskLimits.Trade.Allowed.{
  IsWithinTradeLimits, trade_limits_iff,
}
use portfolio_rebalancer.Application.RiskLimits.Exposure.{
  ExposureLimitInput, evaluate_exposure_limits,
}
use portfolio_rebalancer.Application.RiskLimits.Exposure.Concentration.{
  IsDiversified, exposure_limits_iff,
}

abbrev orders : TradeLimitInput
orders = record {
  baseline_portfolio_value_minor = pos 10000000;
  trade_day_filled_gross_minor = pos 100000;
  reserved_pending_gross_minor = pos 0;
  planned_orders =
      record { logical_order_id = text "o-1"; gross_notional_minor = pos 200000 }
      ∷ record { logical_order_id = text "o-2"; gross_notional_minor = pos 150000 }
      ∷ [];
  max_single_order_minor = pos 200000;
  max_daily_gross_minor = pos 500000;
  max_daily_turnover_basis_points = pos 500;
}

trade_limits_iff_example :
    ((evaluate_trade_notional_limits orders).can_proceed ≡ true) ↔ IsWithinTradeLimits orders
trade_limits_iff_example = trade_limits_iff orders

abbrev projected : ExposureLimitInput
projected = record {
  portfolio_value_minor = pos 10000000;
  instruments =
      record { key = text "etf"; value_minor = pos 6000000 }
      ∷ record { key = text "bond"; value_minor = pos 4000000 }
      ∷ [];
  asset_classes = record { key = text "stocks"; value_minor = pos 6000000 } ∷ [];
  risky_asset_value_minor = pos 6000000;
  max_instrument_basis_points = pos 6000;
  max_asset_class_basis_points = pos 6000;
  max_risky_asset_basis_points = pos 7000;
}

exposure_limits_iff_example :
    ((evaluate_exposure_limits projected).can_proceed ≡ true) ↔ IsDiversified projected
exposure_limits_iff_example = exposure_limits_iff projected
