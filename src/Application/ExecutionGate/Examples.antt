-- ===== src/Application/ExecutionGate/Examples.antt =====
-- A LIVE plan of one order, approved three minutes ago.
use portfolio_rebalancer.Prelude.{
  big_int, digits_from, refl, pos, Text, text, true, false, [], ◌∷◌, none, some, succeeds, ◌≡◌, ◌↔◌,
}
use portfolio_rebalancer.Application.OrderState.{filled}
use portfolio_rebalancer.Application.ExecutionGate.{
  live, kr, limit, day, ExecutionOperationalConfig, valid, ExecutionPlanIdentity,
  ManualLiveApprovalEvidence, ExecutionRiskGateInput,
}
use portfolio_rebalancer.Application.ExecutionGate.Gate.{
  evaluate_execution_risk_gate, general_checks,
}
use portfolio_rebalancer.Application.ExecutionGate.Checks.{
  evaluate_executable_order_set, to_big_int,
}
use portfolio_rebalancer.Application.ExecutionGate.Throws.{IsUnreadableFor, gate_throws_iff}
use portfolio_rebalancer.Application.ExecutionGate.Decided.{IsExecutable, grants, gate_iff}

abbrev config : ExecutionOperationalConfig
config = record {
  mode = live;
  kill_switch = false;
  limits = record {
    minimum_order_gross_minor = text "10000";
    max_single_order_gross_minor = text "1000000";
    max_daily_gross_minor = text "3000000";
    max_daily_turnover_basis_points = pos 1000;
    max_instrument_weight_basis_points = pos 6000;
    max_asset_class_weight_basis_points = pos 8000;
    max_risky_weight_basis_points = pos 8000;
  };
  live = record {
    enabled = true;
    account_allowlist_hmacs = text "ab12" ∷ [];
    approval_ttl_seconds = pos 600;
    max_single_order_gross_minor = text "100000";
    max_daily_gross_minor = text "100000";
    tiny_live_max_gross_minor = text "50000";
  };
}

abbrev plan : ExecutionPlanIdentity
plan = record {
  plan_id = text "plan-1";
  plan_hash = text "hash-1";
  mode = live;
  snapshot_id = text "snapshot-1";
  snapshot_digest = text "digest-1";
  target_config_version_id = text "config-1";
  target_config_content_hash = text "content-1";
  orders =
      record {
        trade = record { logical_order_id = text "o-1"; gross_notional_minor = pos 20000 };
        market_country = kr;
        order_type = limit;
        time_in_force = day;
      }
      ∷ [];
}

abbrev digest : Text
digest = text "0123456789abcdef0123456789abcdef0123456789ABCDEF0123456789ABCDEF"

abbrev approval : ManualLiveApprovalEvidence
approval = record {
  approval_id = text "approval-1";
  approval_digest = digest;
  expected_approval_digest = digest;
  approved_plan_hash = text "hash-1";
  approved_account_hmac = text "AB12";
  approved_at = some (pos 1000000);
  consumed_at = none;
}

abbrev request : ExecutionRiskGateInput
request = record {
  operational_config = valid config;
  requested_mode = live;
  now = some (pos 1180000);
  account_external_ref_hmac = text "Ab12";
  plan = plan;
  current_identity = record {
    snapshot_id = text "snapshot-1";
    snapshot_digest = text "digest-1";
    target_config_version_id = text "config-1";
    target_config_content_hash = text "content-1";
  };
  existing_orders = record { logical_order_id = text "o-0"; state = filled } ∷ [];
  trade_day_filled_gross_minor = pos 0;
  reserved_pending_gross_minor = pos 0;
  baseline_portfolio_value_minor = pos 1000000;
  projected_exposure = record {
    portfolio_value_minor = pos 1000000;
    instruments = record { key = text "etf"; value_minor = pos 500000 } ∷ [];
    asset_classes = record { key = text "stocks"; value_minor = pos 500000 } ∷ [];
    risky_asset_value_minor = pos 500000;
  };
  manual_approval = some approval;
}

gate_iff_example :
    (grants (evaluate_execution_risk_gate request) ≡ true) ↔ IsExecutable request (valid config)
gate_iff_example = gate_iff request

-- The same request under a limit that is no integer.
abbrev misread : ExecutionRiskGateInput
misread = record (request) {
  operational_config = valid (record (config) {
    limits = record (config.limits) { minimum_order_gross_minor = text "ten" };
  });
}

misread_computed : succeeds (evaluate_execution_risk_gate misread) ≡ false
unfolding evaluate_execution_risk_gate general_checks evaluate_executable_order_set to_big_int
    big_int digits_from
misread_computed = refl

gate_throws_iff_example : (succeeds (evaluate_execution_risk_gate misread) ≡ false) ↔ (
    (config : ExecutionOperationalConfig) × (misread.operational_config ≡ valid config)
    × IsUnreadableFor misread config)
gate_throws_iff_example = gate_throws_iff misread
