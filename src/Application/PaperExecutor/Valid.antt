-- ===== src/Application/PaperExecutor/Valid.antt =====
-- What a step knows behind the tests of its input and of its evidence.
use portfolio_rebalancer.Prelude.{
  ℤ, pos, ◌≤ℤ◌, ◌-ℤ◌, ◌<ℤ◌, ◌+ℤ◌, ltb_ℤ, leb_ℤ, Text, parse_offset_date_time, Bool, true, false,
  not, ◌&&◌, ◌||◌, Option, none, some, List, [], ◌∷◌, All, All-sort, sort, Result, ok, err, ◌>>=◌,
  ◌>>◌, >>-eq-ok, throw_if, arith, ◌≡◌, refl, ◌⊎◌, inl, inr,
}
use portfolio_rebalancer.Domain.Decimal.{DecimalError, to_scaled_integer}
use portfolio_rebalancer.Domain.Money.{krw, eq_currency}
use portfolio_rebalancer.Application.ExecutionGate.{kr}
use portfolio_rebalancer.Application.ExecutionGate.Live.{is_limit, is_day}
use portfolio_rebalancer.Application.Commission.{same_country}
use portfolio_rebalancer.Broker.{OrderBookLevel}
use portfolio_rebalancer.Application.OrderState.{
  OrderState, pending, partial_filled, planned, submitting, unknown, unknown_blocked, filled,
  canceled, rejected, same_state,
}
use portfolio_rebalancer.Application.PaperExecutor.{
  PaperLimitExecutionInput, PaperFreshnessPolicy, PaperExecutionReasonCode, ParsedBookLevel,
  ValidatedEvidence, orderbook_level_invalid, quote_missing, orderbook_missing,
  evidence_identity_mismatch, quote_price_invalid, order_input_invalid, orderbook_side_missing,
}
use portfolio_rebalancer.Application.PaperExecutor.Evidence.{
  is_none, is_invalid_order, is_invalid_policy, validate_input, required, positive_or_none,
  parse_positive_whole_unit, level_of, parse_book_level, parse_levels, compare_book_levels,
  TimeCodes, validate_evidence_time, source_levels, is_empty, is_mismatch, quote_codes,
  order_book_codes, validate_evidence, Refusal, refused, get_required_parsed_time,
  evaluation_time_unreadable,
}
use portfolio_rebalancer.Application.PaperExecutor.Fill.{IsParsed}

pub record IsValid (input : PaperLimitExecutionInput) : Type 0 where
  pub amount : pos 0 <ℤ input.order.remaining_quantity
  pub price : pos 0 <ℤ input.order.limit_price_minor
  pub open_state :
      (input.order.current_state ≡ pending) ⊎ (input.order.current_state ≡ partial_filled)
  pub share : pos 0 ≤ℤ input.partial_fill_policy.book_participation_basis_points
  pub timed : is_none (parse_offset_date_time input.evaluated_at) ≡ false

open_states :
    (s : OrderState)
    → (not (same_state s pending) && not (same_state s partial_filled)) ≡ false
    → (s ≡ pending) ⊎ (s ≡ partial_filled)
open_states pending h = inl refl
open_states partial_filled h = inr refl
open_states planned h = cc
open_states submitting h = cc
open_states unknown h = cc
open_states unknown_blocked h = cc
open_states filled h = cc
open_states canceled h = cc
open_states rejected h = cc

pub validate_input-IsValid :
    (input : PaperLimitExecutionInput) → validate_input input ≡ ok tt → IsValid input
unfolding validate_input
validate_input-IsValid input h =
    let (good_order, h1) = >>-eq-ok (is_invalid_order input) _ h in
    let (_, h2) = >>-eq-ok (not (same_country input.order.market_country kr)) _ h1 in
    let (_, h3) = >>-eq-ok (not (eq_currency input.order.currency krw)) _ h2 in
    let (_, h4) = >>-eq-ok (not (is_limit input.order.order_type)) _ h3 in
    let (_, h5) = >>-eq-ok (not (is_day input.order.time_in_force)) _ h4 in
    let (good_policy, h6) = >>-eq-ok (is_invalid_policy input.partial_fill_policy) _ h5 in
    let (timed, h7) = >>-eq-ok (is_none (parse_offset_date_time input.evaluated_at)) _ h6 in
    record {
      amount = ground arith;
      price = ground arith;
      open_state = open_states input.order.current_state (ground arith);
      share = ground arith;
      timed = timed;
    }

positive_or_none-positive :
    (r : Result DecimalError ℤ) (n : ℤ) → positive_or_none r ≡ some n → pos 0 <ℤ n
positive_or_none-positive (err thrown) n h = cc
positive_or_none-positive (ok m) n h = ground arith

level_of-parts :
    (i : ℤ) (p q : Option ℤ) (level : ParsedBookLevel)
    → level_of i p q ≡ some level
    → (p ≡ some level.price_minor) × (q ≡ some level.quantity)
level_of-parts i none q level h = cc
level_of-parts i (some p) none level h = cc
level_of-parts i (some p) (some q) level h = (cc, cc)

level_of-IsParsed :
    (i : ℤ) (r q : Result DecimalError ℤ) (level : ParsedBookLevel)
    → level_of i (positive_or_none r) (positive_or_none q) ≡ some level
    → IsParsed level
level_of-IsParsed i r q level h =
    let (price, quantity) = level_of-parts i (positive_or_none r) (positive_or_none q) level h in
    record {
      price = positive_or_none-positive r level.price_minor price;
      amount = positive_or_none-positive q level.quantity quantity;
    }

-- A time of evidence, behind its tests.
pub record IsFresh (policy : PaperFreshnessPolicy) (evaluated submitted : ℤ) (observed_at : Text)
    : Type 0 where
  pub observed : ℤ
  pub read : parse_offset_date_time observed_at ≡ some observed
  pub later : submitted <ℤ observed
  pub young : evaluated -ℤ observed ≤ℤ policy.max_evidence_age_ms
  pub tolerated : observed -ℤ evaluated ≤ℤ policy.future_tolerance_ms

pub record IsEvidence (input : PaperLimitExecutionInput) (evidence : ValidatedEvidence)
    : Type 0 where
  pub evaluated : ℤ
  pub submitted : ℤ
  pub evaluated_at : parse_offset_date_time input.evaluated_at ≡ some evaluated
  pub submitted_at : parse_offset_date_time input.order.submitted_at ≡ some submitted
  pub quote : IsFresh input.freshness_policy evaluated submitted evidence.quote_observed_at
  pub book : IsFresh input.freshness_policy evaluated submitted evidence.order_book_observed_at
  pub levels : All IsParsed evidence.relevant_levels

-- A call that does not throw, and whose value has a property.
abbrev pub Checked : {A : Type 0} → (A → Type 0) → Result Refusal A → Type 0
Checked P (err (refused reason)) = Unit
Checked P (err evaluation_time_unreadable) = ⊥
Checked P (ok a) = P a

>>=-Checked :
    {A B : Type 0} (Q : A → Type 0) (P : B → Type 0) (call : Result Refusal A)
    (next : A → Result Refusal B)
    → Checked Q call
    → ((a : A) → Q a → Checked P (next a))
    → Checked P (call >>= next)
>>=-Checked Q P (err (refused reason)) next h k = tt
>>=-Checked Q P (err evaluation_time_unreadable) next h k = h
>>=-Checked Q P (ok a) next h k = k a h

required-Checked :
    {A B : Type 0} (P : B → Type 0) (r : PaperExecutionReasonCode) (o : Option A)
    (next : A → Result Refusal B)
    → ((a : A) → o ≡ some a → Checked P (next a))
    → Checked P (required (refused r) o >>= next)
required-Checked P r none next k = tt
required-Checked P r (some a) next k = k a refl

throw_if-Checked :
    {B : Type 0} (P : B → Type 0) (b : Bool) (r : PaperExecutionReasonCode)
    (next : Result Refusal B)
    → (b ≡ false → Checked P next)
    → Checked P (throw_if b (refused r) >> next)
throw_if-Checked P true r next k = tt
throw_if-Checked P false r next k = k refl

validate_evidence_time-Checked :
    (policy : PaperFreshnessPolicy) (codes : TimeCodes) (evaluated submitted : ℤ)
    (observed_at : Option Text) (received_at : Text)
    → Checked
        (IsFresh policy evaluated submitted)
        (validate_evidence_time policy codes evaluated submitted observed_at received_at)
unfolding validate_evidence_time
validate_evidence_time-Checked policy codes evaluated submitted observed_at received_at =
    required-Checked _ codes.missing_code observed_at _ (λ s e.
      required-Checked _ codes.invalid_code (parse_offset_date_time s) _ (λ observed read.
        required-Checked _ codes.invalid_code (parse_offset_date_time received_at) _
          (λ received read'.
            throw_if-Checked _ (leb_ℤ observed submitted || leb_ℤ received submitted)
              codes.not_later_code _
              (λ later.
                throw_if-Checked _
                  (ltb_ℤ policy.future_tolerance_ms (observed -ℤ evaluated)
                    || ltb_ℤ policy.future_tolerance_ms (received -ℤ evaluated)
                    || ltb_ℤ policy.future_tolerance_ms (observed -ℤ received))
                  codes.invalid_code _
                  (λ near.
                    throw_if-Checked _
                      (ltb_ℤ policy.max_evidence_age_ms (evaluated -ℤ observed)
                        || ltb_ℤ policy.max_evidence_age_ms (evaluated -ℤ received))
                      codes.stale_code _
                      (λ young.
                        let fresh : IsFresh policy evaluated submitted s = record {
                          observed = observed;
                          read = read;
                          later = ground arith;
                          young = ground arith;
                          tolerated = ground arith;
                        } in
                        fresh))))))

parse_levels-Checked :
    (i : ℤ) (levels : List OrderBookLevel)
    → Checked (λ parsed. All IsParsed parsed) (parse_levels i levels)
unfolding parse_levels parse_book_level parse_positive_whole_unit
parse_levels-Checked i [] = tt
parse_levels-Checked i (level ∷ levels) =
    let price = to_scaled_integer level.price (pos 0) in
    let quantity = to_scaled_integer level.quantity (pos 0) in
    required-Checked _ orderbook_level_invalid
      (level_of i (positive_or_none price) (positive_or_none quantity)) _
      (λ first e.
        >>=-Checked _ _ (parse_levels (i +ℤ pos 1) levels) _
          (parse_levels-Checked (i +ℤ pos 1) levels)
          (λ rest all. (level_of-IsParsed i price quantity first e, all)))

evaluated-Checked :
    (o : Option ℤ)
    → is_none o ≡ false
    → Checked (λ a. o ≡ some a) (required evaluation_time_unreadable o)
evaluated-Checked none h = cc
evaluated-Checked (some a) h = refl

-- The evidence behind its tests. The time of the evaluation does not fail to be read again.
pub validate_evidence-Checked :
    (input : PaperLimitExecutionInput)
    → is_none (parse_offset_date_time input.evaluated_at) ≡ false
    → Checked (IsEvidence input) (validate_evidence input)
unfolding validate_evidence get_required_parsed_time
validate_evidence-Checked input timed = required-Checked _ quote_missing input.quote _ (λ quote e.
    required-Checked _ orderbook_missing input.order_book _ (λ book e'.
      throw_if-Checked _ (is_mismatch input.order quote.value book.value) evidence_identity_mismatch
        _
        (λ same.
          required-Checked _ quote_price_invalid (parse_positive_whole_unit quote.value.price) _
            (λ price e''.
              >>=-Checked _ _
                (required evaluation_time_unreadable (parse_offset_date_time input.evaluated_at)) _
                (evaluated-Checked (parse_offset_date_time input.evaluated_at) timed)
                (λ evaluated at.
                  required-Checked _ order_input_invalid
                    (parse_offset_date_time input.order.submitted_at) _
                    (λ submitted sent.
                      >>=-Checked _ _
                        (validate_evidence_time input.freshness_policy quote_codes evaluated
                          submitted quote.value.observed_at quote.metadata.received_at)
                        _
                        (validate_evidence_time-Checked input.freshness_policy quote_codes evaluated
                          submitted quote.value.observed_at quote.metadata.received_at)
                        (λ quote_observed quote_fresh.
                          >>=-Checked _ _
                            (validate_evidence_time input.freshness_policy order_book_codes
                              evaluated submitted book.value.observed_at book.metadata.received_at)
                            _
                            (validate_evidence_time-Checked input.freshness_policy order_book_codes
                              evaluated submitted book.value.observed_at book.metadata.received_at)
                            (λ book_observed book_fresh.
                              throw_if-Checked _
                                (is_empty (source_levels input.order.side book.value))
                                orderbook_side_missing _
                                (λ some_levels.
                                  >>=-Checked _ _
                                    (parse_levels (pos 0)
                                      (source_levels input.order.side book.value))
                                    _
                                    (parse_levels-Checked (pos 0)
                                      (source_levels input.order.side book.value))
                                    (λ levels all.
                                      let good : IsEvidence input (record {
                                        quote_price_minor = price;
                                        quote_observed_at = quote_observed;
                                        order_book_observed_at = book_observed;
                                        relevant_levels =
                                            sort (compare_book_levels input.order.side) levels;
                                      }) =
                                        record {
                                          evaluated = evaluated;
                                          submitted = submitted;
                                          evaluated_at = at;
                                          submitted_at = sent;
                                          quote = quote_fresh;
                                          book = book_fresh;
                                          levels =
                                              All-sort (compare_book_levels input.order.side)
                                                IsParsed levels all;
                                        } in
                                      good))))))))))
