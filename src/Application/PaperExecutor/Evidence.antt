-- ===== src/Application/PaperExecutor/Evidence.antt =====
-- packages/application/src/paper-order-executor.ts, validateInput to validateEvidenceTime and the helpers
-- that read texts. A call that finds an issue gives its reason code as an error.
use portfolio_rebalancer.Prelude.{
  ℤ, pos, ◌-◌, ◌^◌, ◌+ℤ◌, ◌-ℤ◌, ltb_ℤ, leb_ℤ, eq_ℤ, Text, text, text_eq, is_blank, Bool, true,
  false, not, ◌&&◌, ◌||◌, Option, none, some, List, [], ◌∷◌, Ordering, sort, parse_offset_date_time,
  if◌then◌else◌, Result, ok, err, ◌>>=◌, ◌>>◌, throw_if,
}
use portfolio_rebalancer.Broker.{PriceQuote, OrderBookLevel, OrderBookSnapshot}
use portfolio_rebalancer.Domain.Decimal.{DecimalError, to_scaled_integer}
use portfolio_rebalancer.Domain.Money.{krw, eq_currency}
use portfolio_rebalancer.Domain.OrderRounding.{Side, buy, sell}
use portfolio_rebalancer.Application.OrderState.{pending, partial_filled, same_state}
use portfolio_rebalancer.Application.ExecutionGate.{MarketCountry, kr}
use portfolio_rebalancer.Application.ExecutionGate.Live.{is_limit, is_day}
use portfolio_rebalancer.Application.Commission.{same_country}
use portfolio_rebalancer.Application.PaperExecutor.{
  PaperExecutionReasonCode, PaperLimitDayOrder, PaperFreshnessPolicy, PaperPartialFillPolicy,
  PaperLimitExecutionInput, ParsedBookLevel, ValidatedEvidence, basis_point_scale,
  order_input_invalid, unsupported_market, unsupported_currency, unsupported_order_type,
  unsupported_time_in_force, partial_fill_policy_invalid, evaluation_time_invalid,
  freshness_policy_invalid, quote_missing, orderbook_missing, evidence_identity_mismatch,
  quote_price_invalid, quote_observed_at_missing, quote_time_invalid, quote_not_later_than_order,
  quote_stale, orderbook_side_missing, orderbook_level_invalid, orderbook_observed_at_missing,
  orderbook_time_invalid, orderbook_not_later_than_order, orderbook_stale,
}

-- `PAPER_EXECUTION_FIXTURE_VERSION`
abbrev pub fixture_version_name : Text
fixture_version_name = text "PAPER_EXECUTION_FIXTURE_V1"

abbrev pub is_none : {A : Type 0} → Option A → Bool
is_none none = true
is_none (some a) = false

-- `!Number.isSafeInteger(n) || n < 0`
abbrev pub is_unsafe_or_negative : ℤ → Bool
is_unsafe_or_negative n = ltb_ℤ (pos (2 ^ 53 - 1)) n || ltb_ℤ n (pos 0)

abbrev pub is_invalid_order : PaperLimitExecutionInput → Bool
is_invalid_order input =
    not (text_eq input.fixture_version fixture_version_name)
    || is_blank input.order.logical_order_id
    || not (same_state input.order.current_state pending)
      && not (same_state input.order.current_state partial_filled)
    || leb_ℤ input.order.remaining_quantity (pos 0)
    || leb_ℤ input.order.limit_price_minor (pos 0)

abbrev pub is_invalid_policy : PaperPartialFillPolicy → Bool
is_invalid_policy policy =
    ltb_ℤ policy.book_participation_basis_points (pos 0)
    || ltb_ℤ basis_point_scale policy.book_participation_basis_points

unfoldable pub validate_input : PaperLimitExecutionInput → Result PaperExecutionReasonCode Unit
validate_input input = do
  throw_if (is_invalid_order input) order_input_invalid
  throw_if (not (same_country input.order.market_country kr)) unsupported_market
  throw_if (not (eq_currency input.order.currency krw)) unsupported_currency
  throw_if (not (is_limit input.order.order_type)) unsupported_order_type
  throw_if (not (is_day input.order.time_in_force)) unsupported_time_in_force
  throw_if (is_invalid_policy input.partial_fill_policy) partial_fill_policy_invalid
  throw_if (is_none (parse_offset_date_time input.evaluated_at)) evaluation_time_invalid
  throw_if
      (is_unsafe_or_negative input.freshness_policy.max_evidence_age_ms
        || is_unsafe_or_negative input.freshness_policy.future_tolerance_ms)
      freshness_policy_invalid

-- A value, or the reason why there is none.
abbrev pub required : {E A : Type 0} → E → Option A → Result E A
required reason none = err reason
required reason (some a) = ok a

-- The `null` of an integer that is not positive, or that `toScaledInteger` does not read.
abbrev pub positive_or_none : Result DecimalError ℤ → Option ℤ
positive_or_none (err thrown) = none
positive_or_none (ok parsed) = if ltb_ℤ (pos 0) parsed then some parsed else none

unfoldable pub parse_positive_whole_unit : Text → Option ℤ
parse_positive_whole_unit value = positive_or_none (to_scaled_integer value (pos 0))

-- `sameInstrument`
abbrev pub same_instrument : PaperLimitDayOrder → MarketCountry → Text → Bool
same_instrument order country symbol =
    same_country order.market_country country && text_eq order.symbol symbol

-- Why there is no validated evidence: a reason code, or the time of the evaluation is read again in vain.
pub data Refusal : Type 0 where
  refused : PaperExecutionReasonCode → Refusal
  evaluation_time_unreadable : Refusal

unfoldable pub get_required_parsed_time : Text → Result Refusal ℤ
get_required_parsed_time value = required evaluation_time_unreadable (parse_offset_date_time value)

-- The reason codes of one piece of evidence.
pub record TimeCodes : Type 0 where
  pub missing_code : PaperExecutionReasonCode
  pub invalid_code : PaperExecutionReasonCode
  pub not_later_code : PaperExecutionReasonCode
  pub stale_code : PaperExecutionReasonCode

unfoldable pub validate_evidence_time :
    PaperFreshnessPolicy → TimeCodes → ℤ → ℤ → Option Text → Text → Result Refusal Text
validate_evidence_time policy codes evaluated submitted observed_at received_at = do
  observed_text ← required (refused codes.missing_code) observed_at
  observed ← required (refused codes.invalid_code) (parse_offset_date_time observed_text)
  received ← required (refused codes.invalid_code) (parse_offset_date_time received_at)
  throw_if (leb_ℤ observed submitted || leb_ℤ received submitted) (refused codes.not_later_code)
  throw_if
      (ltb_ℤ policy.future_tolerance_ms (observed -ℤ evaluated)
        || ltb_ℤ policy.future_tolerance_ms (received -ℤ evaluated)
        || ltb_ℤ policy.future_tolerance_ms (observed -ℤ received))
      (refused codes.invalid_code)
  throw_if
      (ltb_ℤ policy.max_evidence_age_ms (evaluated -ℤ observed)
        || ltb_ℤ policy.max_evidence_age_ms (evaluated -ℤ received))
      (refused codes.stale_code)
  ok observed_text

abbrev pub level_of : ℤ → Option ℤ → Option ℤ → Option ParsedBookLevel
level_of index none quantity = none
level_of index (some price) none = none
level_of index (some price) (some quantity) =
    some (record { original_index = index; price_minor = price; quantity = quantity })

unfoldable pub parse_book_level : OrderBookLevel → ℤ → Option ParsedBookLevel
parse_book_level level index =
    level_of index (parse_positive_whole_unit level.price)
      (parse_positive_whole_unit level.quantity)

-- The loop over `sourceLevels.entries()`, from an index on.
unfoldable pub parse_levels : ℤ → List OrderBookLevel → Result Refusal (List ParsedBookLevel)
parse_levels index [] = ok []
parse_levels index (level ∷ levels) = do
  parsed ← required (refused orderbook_level_invalid) (parse_book_level level index)
  rest ← parse_levels (index +ℤ pos 1) levels
  ok (parsed ∷ rest)

abbrev order_of : Bool → Ordering
order_of true = Ordering.lt
order_of false = Ordering.gt

abbrev compare_index : ℤ → ℤ → Ordering
compare_index left right =
    if ltb_ℤ left right then Ordering.lt else if eq_ℤ left right then Ordering.eq else Ordering.gt

abbrev pub better_price : Side → ℤ → ℤ → Bool
better_price buy left right = ltb_ℤ left right
better_price sell left right = ltb_ℤ right left

unfoldable pub compare_book_levels : Side → ParsedBookLevel → ParsedBookLevel → Ordering
compare_book_levels side left right =
    if eq_ℤ left.price_minor right.price_minor
    then compare_index left.original_index right.original_index
    else order_of (better_price side left.price_minor right.price_minor)

abbrev pub source_levels : Side → OrderBookSnapshot → List OrderBookLevel
source_levels buy book = book.asks
source_levels sell book = book.bids

abbrev pub is_empty : {A : Type 0} → List A → Bool
is_empty [] = true
is_empty (x ∷ xs) = false

abbrev pub quote_codes : TimeCodes
quote_codes = record {
  missing_code = quote_observed_at_missing;
  invalid_code = quote_time_invalid;
  not_later_code = quote_not_later_than_order;
  stale_code = quote_stale;
}

abbrev pub order_book_codes : TimeCodes
order_book_codes = record {
  missing_code = orderbook_observed_at_missing;
  invalid_code = orderbook_time_invalid;
  not_later_code = orderbook_not_later_than_order;
  stale_code = orderbook_stale;
}

abbrev pub is_mismatch : PaperLimitDayOrder → PriceQuote → OrderBookSnapshot → Bool
is_mismatch order quote book =
    not (same_instrument order quote.market_country quote.symbol)
    || not (same_instrument order book.market_country book.symbol)
    || not (eq_currency quote.currency order.currency)
    || not (eq_currency book.currency order.currency)

unfoldable pub validate_evidence : PaperLimitExecutionInput → Result Refusal ValidatedEvidence
validate_evidence input = do
  quote ← required (refused quote_missing) input.quote
  book ← required (refused orderbook_missing) input.order_book
  throw_if (is_mismatch input.order quote.value book.value) (refused evidence_identity_mismatch)
  price ← required (refused quote_price_invalid) (parse_positive_whole_unit quote.value.price)
  evaluated ← get_required_parsed_time input.evaluated_at
  submitted ←
      required (refused order_input_invalid) (parse_offset_date_time input.order.submitted_at)
  quote_observed ←
      validate_evidence_time input.freshness_policy quote_codes evaluated submitted
        quote.value.observed_at quote.metadata.received_at
  book_observed ←
      validate_evidence_time input.freshness_policy order_book_codes evaluated submitted
        book.value.observed_at book.metadata.received_at
  throw_if (is_empty (source_levels input.order.side book.value)) (refused orderbook_side_missing)
  levels ← parse_levels (pos 0) (source_levels input.order.side book.value)
  ok (record {
    quote_price_minor = price;
    quote_observed_at = quote_observed;
    order_book_observed_at = book_observed;
    relevant_levels = sort (compare_book_levels input.order.side) levels;
  })
