-- ===== src/Application/PaperExecutor/Examples.antt =====
-- A purchase that takes a part of a book, with a partial fill and a commission.
use portfolio_rebalancer.Prelude.{
  pos, negsuc, ◌+ℤ◌, ◌-ℤ◌, ◌*ℤ◌, ◌/ℤ◌, text, text_eq, compare_text, big_int, digits_from,
  parse_offset_date_time, sort, insert, sum_ℤ, sum_from, true, none, some, [], ◌∷◌, ok, ◌≡◌, refl,
  arith,
}
use portfolio_rebalancer.Broker.{BrokerObservationMetadata}
use portfolio_rebalancer.Domain.Decimal.{to_scaled_integer}
use portfolio_rebalancer.Domain.Money.{krw}
use portfolio_rebalancer.Domain.OrderRounding.{buy}
use portfolio_rebalancer.Application.OrderState.{OrderState}
use portfolio_rebalancer.Application.ExecutionGate.{kr, limit, day}
use portfolio_rebalancer.Application.Commission.{
  estimate_commission, parse_non_negative_decimal, is_iso_date, is_applicable, commission_of,
}
use portfolio_rebalancer.Application.PaperExecutor.{
  PaperLimitExecutionInput, PaperOrderExecutionResult,
}
use portfolio_rebalancer.Application.PaperExecutor.Evidence.{
  fixture_version_name, validate_input, parse_positive_whole_unit, get_required_parsed_time,
  validate_evidence_time, parse_book_level, parse_levels, compare_book_levels, validate_evidence,
}
use portfolio_rebalancer.Application.PaperExecutor.Book.{
  qualifying_levels, simulated_level, desired_fill_quantity, take_levels, simulate_book_fill,
}
use portfolio_rebalancer.Application.PaperExecutor.Step.{
  bare_evidence, create_evidence, create_raw_state, no_fill_result, blocked_result, filled_result,
  gross_notional, conclude, simulate_paper_limit_day_order,
}
use portfolio_rebalancer.Application.PaperExecutor.Replay.{
  IsBalanced, simulate-IsBalanced, IsRecordable, simulate-IsRecordable, IsJustified,
  simulate-IsJustified,
}

abbrev metadata_now : BrokerObservationMetadata
metadata_now = record {
  broker_id = text "toss";
  operation_id = text "read";
  request_id = none;
  http_status = pos 200;
  rate_limit_group = none;
  received_at = text "2024-03-04T09:00:05+09:00";
  audit_reference = none;
}

abbrev input_now : PaperLimitExecutionInput
input_now = record {
  fixture_version = fixture_version_name;
  order = record {
    logical_order_id = text "o1";
    current_state = OrderState.partial_filled;
    market_country = kr;
    currency = krw;
    symbol = text "069500";
    side = buy;
    order_type = limit;
    time_in_force = day;
    remaining_quantity = pos 10;
    limit_price_minor = pos 1000;
    submitted_at = text "2024-03-04T09:00:00+09:00";
    trade_date = text "2024-03-04";
  };
  evaluated_at = text "2024-03-04T09:00:06+09:00";
  freshness_policy = record { max_evidence_age_ms = pos 5000; future_tolerance_ms = pos 1000 };
  partial_fill_policy = record { enabled = true; book_participation_basis_points = pos 5000 };
  quote = some (record {
    value = record {
      market_country = kr;
      symbol = text "069500";
      price = text "999";
      currency = krw;
      observed_at = some (text "2024-03-04T09:00:05+09:00");
    };
    metadata = metadata_now;
  });
  order_book = some (record {
    value = record {
      market_country = kr;
      symbol = text "069500";
      currency = krw;
      bids = [];
      asks =
          record { price = text "1000"; quantity = text "7" }
          ∷ record { price = text "999"; quantity = text "9" }
          ∷ record { price = text "1001"; quantity = text "50" }
          ∷ [];
      observed_at = some (text "2024-03-04T09:00:05+09:00");
    };
    metadata = metadata_now;
  });
  commission_schedule = record {
    account_id = text "a";
    periods =
        record {
          market_country = kr;
          commission_rate_percent = text "0.1";
          start_date = none;
          end_date = none;
        }
        ∷ [];
  };
}

-- 4 at 999 and 3 at 1000, with a commission of 6.996 in minor units, rounded up.
step_now :
    ((r : PaperOrderExecutionResult) × (simulate_paper_limit_day_order input_now ≡ ok r)
      × (r.normalized_transition.applied ≡ true)
      × (r.fill.net_cash_delta_minor ≡ negsuc 7002))
unfolding simulate_paper_limit_day_order validate_input validate_evidence validate_evidence_time
    parse_levels parse_book_level parse_positive_whole_unit get_required_parsed_time
    to_scaled_integer parse_offset_date_time compare_book_levels sort insert conclude filled_result
    gross_notional create_evidence create_raw_state no_fill_result blocked_result bare_evidence
    simulate_book_fill qualifying_levels simulated_level desired_fill_quantity take_levels
    estimate_commission parse_non_negative_decimal is_iso_date is_applicable commission_of ◌+ℤ◌ ◌-ℤ◌
    ◌*ℤ◌ ◌/ℤ◌ sum_ℤ sum_from text_eq compare_text big_int digits_from
step_now = (_, refl, refl, refl)

simulate-IsBalanced_example :
    (r : PaperOrderExecutionResult) × (simulate_paper_limit_day_order input_now ≡ ok r)
    × IsBalanced input_now r
simulate-IsBalanced_example = simulate-IsBalanced input_now

simulate-IsRecordable_example : IsRecordable input_now step_now.0 (pos 2)
simulate-IsRecordable_example = simulate-IsRecordable input_now (pos 2) (omega arith) step_now.1

simulate-IsJustified_example : IsJustified input_now step_now.0
simulate-IsJustified_example = simulate-IsJustified input_now step_now.1 step_now.2
