-- ===== src/Application/PriceMovement/Ready.antt =====
-- When a price movement lets an order proceed.
use portfolio_rebalancer.Prelude.{
  ℤ, pos, ◌≤ℤ◌, ◌<ℤ◌, ltb_ℤ, leb_ℤ, Text, text_eq, Bool, true, false, not, ◌||◌, Option, none, some,
  Result, ◌>>=◌, ◌>>◌, throw_if, arith, ◌≡◌, ◌↔◌, refl,
}
use portfolio_rebalancer.Domain.Money.{eq_currency}
use portfolio_rebalancer.Application.Commission.{same_country}
use portfolio_rebalancer.Application.PriceMovement.{
  PriceMovementInput, PriceMovementDecision, Price, Refusal, refusal, required, decided, is_ready,
  decision, blocked, unknown, price_movement_policy_invalid, price_movement_instrument_mismatch,
  price_movement_currency_mismatch, price_movement_value_invalid, price_movement_time_unknown,
  price_movement_time_invalid, price_movement_time_order_invalid, parse_positive_decimal,
  evaluation, evaluate_price_movement,
}
use portfolio_rebalancer.Application.PriceMovement.Exact.{IsClose, compare_prices_iff}

-- The prices and times of two quotes that may be compared, and are close.
pub record IsAcceptable (date_parse : Text → Option ℤ) (input : PriceMovementInput) : Type 0 where
  pub low : pos 0 ≤ℤ input.max_absolute_change_basis_points
  pub high : input.max_absolute_change_basis_points ≤ℤ pos 10000
  pub country : same_country input.previous.market_country input.current.market_country ≡ true
  pub symbol : text_eq input.previous.symbol input.current.symbol ≡ true
  pub currency : eq_currency input.previous.currency input.current.currency ≡ true
  pub before : Price
  pub now : Price
  pub before_read : parse_positive_decimal input.previous.price ≡ some before
  pub now_read : parse_positive_decimal input.current.price ≡ some now
  pub before_at : Text
  pub now_at : Text
  pub before_observed : input.previous.observed_at ≡ some before_at
  pub now_observed : input.current.observed_at ≡ some now_at
  pub since : ℤ
  pub until : ℤ
  pub since_read : date_parse before_at ≡ some since
  pub until_read : date_parse now_at ≡ some until
  pub later : since <ℤ until
  pub close : IsClose input.max_absolute_change_basis_points before now

abbrev Proceeds : Result Refusal PriceMovementDecision → Type 0
Proceeds call = (decided call).can_proceed ≡ true

abbrev Stops : Refusal → Type 0
Stops r = is_ready r.status ≡ false

guard-Proceeds :
    (b : Bool) (r : Refusal) (next : Result Refusal PriceMovementDecision)
    → Stops r
    → Proceeds (throw_if b r >> next)
    → (b ≡ false) × Proceeds next
unfolding decision
guard-Proceeds true r next s h = cc
guard-Proceeds false r next s h = (refl, h)

required-Proceeds :
    {A : Type 0} (r : Refusal) (o : Option A) (next : A → Result Refusal PriceMovementDecision)
    → Stops r
    → Proceeds (required r o >>= next)
    → (a : A) × (o ≡ some a) × Proceeds (next a)
unfolding decision
required-Proceeds r none next s h = cc
required-Proceeds r (some a) next s h = (a, refl, h)

Proceeds-IsAcceptable :
    (date_parse : Text → Option ℤ) (input : PriceMovementInput)
    → Proceeds (evaluation date_parse input)
    → IsAcceptable date_parse input
unfolding evaluation
Proceeds-IsAcceptable date_parse input h =
    let limit = input.max_absolute_change_basis_points in
    let (bounds, h1) =
      guard-Proceeds (ltb_ℤ limit (pos 0) || ltb_ℤ (pos 10000) limit)
        (refusal blocked price_movement_policy_invalid) _ refl h in
    let (same, h2) =
      guard-Proceeds
        (not (same_country input.previous.market_country input.current.market_country)
          || not (text_eq input.previous.symbol input.current.symbol))
        (refusal blocked price_movement_instrument_mismatch) _ refl h1 in
    let (currency, h3) =
      guard-Proceeds (not (eq_currency input.previous.currency input.current.currency))
        (refusal blocked price_movement_currency_mismatch) _ refl h2 in
    let (p, p_read, h4) =
      required-Proceeds (refusal unknown price_movement_value_invalid)
        (parse_positive_decimal input.previous.price) _ refl h3 in
    let (q, q_read, h5) =
      required-Proceeds (refusal unknown price_movement_value_invalid)
        (parse_positive_decimal input.current.price) _ refl h4 in
    let (s, s_read, h6) =
      required-Proceeds (refusal unknown price_movement_time_unknown) input.previous.observed_at _
        refl h5 in
    let (t, t_read, h7) =
      required-Proceeds (refusal unknown price_movement_time_unknown) input.current.observed_at _
        refl h6 in
    let (since, since_read, h8) =
      required-Proceeds (refusal unknown price_movement_time_invalid) (date_parse s) _ refl h7 in
    let (until, until_read, h9) =
      required-Proceeds (refusal unknown price_movement_time_invalid) (date_parse t) _ refl h8 in
    let (order, h10) =
      guard-Proceeds (leb_ℤ until since) (refusal blocked price_movement_time_order_invalid) _ refl
        h9 in
    let low : pos 0 ≤ℤ limit = ground arith in
    record {
      low = low;
      high = ground arith;
      country = ground arith;
      symbol = ground arith;
      currency = ground arith;
      before = p;
      now = q;
      before_read = p_read;
      now_read = q_read;
      before_at = s;
      now_at = t;
      before_observed = s_read;
      now_observed = t_read;
      since = since;
      until = until;
      since_read = since_read;
      until_read = until_read;
      later = ground arith;
      close =
          (compare_prices_iff limit input.previous.price input.current.price p q low p_read
              q_read).0
            h10;
    }

IsAcceptable-Proceeds :
    (date_parse : Text → Option ℤ) (input : PriceMovementInput)
    → IsAcceptable date_parse input
    → Proceeds (evaluation date_parse input)
unfolding evaluation
IsAcceptable-Proceeds date_parse input a =
    let limit = input.max_absolute_change_basis_points in
    let low = a.low in
    let high = a.high in
    let later = a.later in
    let bounds : (ltb_ℤ limit (pos 0) || ltb_ℤ (pos 10000) limit) ≡ false = ground arith in
    let order : leb_ℤ a.until a.since ≡ false = ground arith in
    rw
      (
        bounds, a.country, a.symbol, a.currency, a.before_read, a.now_read, a.before_observed,
        a.now_observed, a.since_read, a.until_read, order,
      )
      ((compare_prices_iff limit input.previous.price input.current.price a.before a.now low
          a.before_read a.now_read).1
        a.close)

-- A price movement lets an order proceed exactly if its limit is from 0 to 10000 basis points, both quotes
-- are of the same instrument and currency with positive decimal prices, the current one is observed
-- later, and the change, as an exact fraction of the previous price, is at most the limit.
pub price_movement_proceeds_iff :
    (date_parse : Text → Option ℤ) (input : PriceMovementInput)
    → ((evaluate_price_movement date_parse input).can_proceed ≡ true)
      ↔ IsAcceptable date_parse input
unfolding evaluate_price_movement
price_movement_proceeds_iff date_parse input =
    (Proceeds-IsAcceptable date_parse input, IsAcceptable-Proceeds date_parse input)
