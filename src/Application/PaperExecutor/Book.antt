-- ===== src/Application/PaperExecutor/Book.antt =====
-- packages/application/src/paper-order-executor.ts, simulateBookFill: what an order takes from the
-- levels of a book.
use portfolio_rebalancer.Prelude.{
  ℤ, pos, ◌-ℤ◌, ◌*ℤ◌, ◌/ℤ◌, ltb_ℤ, leb_ℤ, eq_ℤ, sum_ℤ, Bool, not, ◌&&◌, List, [], ◌∷◌, map, filter,
  if◌then◌else◌,
}
use portfolio_rebalancer.Domain.OrderRounding.{Side, buy, sell}
use portfolio_rebalancer.Application.PaperExecutor.{
  PaperLimitExecutionInput, PaperLevelExecution, ParsedBookLevel, FillSimulation, basis_point_scale,
}

-- `minBigInt`
abbrev pub min_big_int : ℤ → ℤ → ℤ
min_big_int left right = if ltb_ℤ left right then left else right

-- The price is no worse for the side than the limit.
abbrev pub is_within : Side → ℤ → ℤ → Bool
is_within buy limit price = leb_ℤ price limit
is_within sell limit price = leb_ℤ limit price

unfoldable pub qualifying_levels :
    PaperLimitExecutionInput → List ParsedBookLevel → List ParsedBookLevel
qualifying_levels input levels =
    filter (λ level. is_within input.order.side input.order.limit_price_minor level.price_minor)
      levels

-- The share of a level that the order may take.
unfoldable pub simulated_level : ℤ → ParsedBookLevel → ParsedBookLevel
simulated_level share level = record {
  original_index = level.original_index;
  price_minor = level.price_minor;
  quantity = level.quantity *ℤ share /ℤ basis_point_scale;
}

unfoldable pub desired_fill_quantity : PaperLimitExecutionInput → ℤ → ℤ
desired_fill_quantity input available =
    if not input.partial_fill_policy.enabled && ltb_ℤ available input.order.remaining_quantity
    then pos 0
    else min_big_int available input.order.remaining_quantity

abbrev pub execution : ℤ → ℤ → PaperLevelExecution
execution price quantity = record {
  price_minor = price;
  quantity = quantity;
  notional_minor = price *ℤ quantity;
}

-- The loop over the levels, with the quantity that is left.
unfoldable pub take_levels : ℤ → List ParsedBookLevel → List PaperLevelExecution
take_levels left [] = []
take_levels left (level ∷ levels) =
    let quantity = min_big_int level.quantity left in
    let skipped = take_levels left levels in
    let taken = take_levels (left -ℤ quantity) levels in
    if eq_ℤ left (pos 0)
    then []
    else if eq_ℤ quantity (pos 0)
    then skipped
    else execution level.price_minor quantity ∷ taken

unfoldable pub simulate_book_fill : PaperLimitExecutionInput → List ParsedBookLevel → FillSimulation
simulate_book_fill input levels =
    let qualifying = qualifying_levels input levels in
    let simulated =
      map (simulated_level input.partial_fill_policy.book_participation_basis_points) qualifying in
    let available = sum_ℤ (λ (level : ParsedBookLevel). level.quantity) simulated in
    let desired = desired_fill_quantity input available in
    record {
      fill_quantity = desired;
      qualifying_book_quantity = sum_ℤ (λ (level : ParsedBookLevel). level.quantity) qualifying;
      simulated_available_quantity = available;
      executions = take_levels desired simulated;
    }
