-- ===== src/Application/PaperExecutor/Fill.antt =====
-- What an order takes from the levels of a book.
use portfolio_rebalancer.Prelude.{
  ℤ, pos, negsuc, ◌+ℤ◌, ◌-ℤ◌, ◌*ℤ◌, ◌/ℤ◌, ◌≤ℤ◌, ◌<ℤ◌, eq_ℤ, int_laws, eq_of_parts, -ℤ_parts,
  +ℤ_parts, sum_ℤ, sum_ℤ-nil, sum_ℤ-cons, Bool-cases, true, false, List, [], ◌∷◌, map, filter, All,
  All-map, All-filter, All-of_map, arith, ◌≡◌, refl, ◌∙◌, inl, inr,
}
use portfolio_rebalancer.Application.PaperExecutor.{
  PaperLimitExecutionInput, PaperLevelExecution, ParsedBookLevel, FillSimulation, basis_point_scale,
}
use portfolio_rebalancer.Application.PaperExecutor.Book.{
  min_big_int, is_within, qualifying_levels, simulated_level, desired_fill_quantity, execution,
  take_levels, simulate_book_fill,
}

-- What the loop needs of a level: its quantity is not negative and its price is within the limit.
pub record IsOffered (input : PaperLimitExecutionInput) (level : ParsedBookLevel) : Type 0 where
  pub amount : pos 0 ≤ℤ level.quantity
  pub within : is_within input.order.side input.order.limit_price_minor level.price_minor ≡ true

-- An execution at a price that the limit allows.
pub record IsExecution (input : PaperLimitExecutionInput) (e : PaperLevelExecution) : Type 0 where
  pub some_quantity : pos 0 <ℤ e.quantity
  pub within : is_within input.order.side input.order.limit_price_minor e.price_minor ≡ true
  pub notional : e.notional_minor ≡ e.price_minor *ℤ e.quantity

min_positive :
    (a b : ℤ)
    → pos 0 ≤ℤ a
    → pos 0 ≤ℤ b
    → eq_ℤ (min_big_int a b) (pos 0) ≡ false
    → pos 0 <ℤ min_big_int a b
min_positive a b p q h = ground arith

min_left : (a b : ℤ) → pos 0 ≤ℤ b -ℤ min_big_int a b
min_left a b = ground (arith, -ℤ_parts b (min_big_int a b))

-- What is left after a level still fits into the levels behind it.
min_fits : (a b rest : ℤ) → pos 0 ≤ℤ rest → b ≤ℤ a +ℤ rest → b -ℤ min_big_int a b ≤ℤ rest
min_fits a b rest p h = ground (arith, -ℤ_parts b (min_big_int a b), +ℤ_parts a rest)

min_none :
    (a b rest : ℤ)
    → pos 0 ≤ℤ a
    → pos 0 ≤ℤ b
    → pos 0 ≤ℤ rest
    → b ≤ℤ a +ℤ rest
    → eq_ℤ (min_big_int a b) (pos 0) ≡ true
    → b ≤ℤ rest
min_none a b rest p q r h e = ground (arith, +ℤ_parts a rest)

add-sub : (a b : ℤ) → a +ℤ (b -ℤ a) ≡ b
add-sub a b = omega int_laws

-- The quantity of a book.
abbrev pub total : List ParsedBookLevel → ℤ
total levels = sum_ℤ (λ (level : ParsedBookLevel). level.quantity) levels

module _ (input : PaperLimitExecutionInput) where
  total-positive :
      (levels : List ParsedBookLevel) → All (IsOffered input) levels → pos 0 ≤ℤ total levels
  total-positive [] all = rw (sum_ℤ-nil (λ (level : ParsedBookLevel). level.quantity)) (omega arith)
  total-positive (level ∷ levels) all =
      rw (sum_ℤ-cons (λ (level : ParsedBookLevel). level.quantity) level levels)
        (omega (int_laws, total-positive levels all.1, (all.0).amount))

  take_levels-IsExecution :
      (left : ℤ) (levels : List ParsedBookLevel)
      → pos 0 ≤ℤ left
      → All (IsOffered input) levels
      → All (IsExecution input) (take_levels left levels)
  unfolding take_levels
  take_levels-IsExecution left [] h all = tt
  take_levels-IsExecution left (level ∷ levels) h all = elim (Bool-cases (eq_ℤ left (pos 0))) [
    | inl done ↦ rw done tt
    | inr more ↦ elim (Bool-cases (eq_ℤ (min_big_int level.quantity left) (pos 0))) [
      | inl none_here ↦ rw (more, none_here) (take_levels-IsExecution left levels h all.1)
      | inr some_here ↦
          rw (more, some_here)
            (
              record {
                some_quantity = min_positive level.quantity left (all.0).amount h some_here;
                within = (all.0).within;
                notional = refl;
              },
              take_levels-IsExecution (left -ℤ min_big_int level.quantity left) levels
                  (min_left level.quantity left) all.1,
            )
    ]
  ]

  take_levels-sum :
      (left : ℤ) (levels : List ParsedBookLevel)
      → pos 0 ≤ℤ left
      → left ≤ℤ total levels
      → All (IsOffered input) levels
      → sum_ℤ (λ (e : PaperLevelExecution). e.quantity) (take_levels left levels) ≡ left
  unfolding take_levels
  take_levels-sum left [] h fits all =
      let fits' : left ≤ℤ pos 0 =
        rw (sum_ℤ-nil (λ (level : ParsedBookLevel). level.quantity)) at fits in
      sum_ℤ-nil (λ (e : PaperLevelExecution). e.quantity) ∙ eq_of_parts (pos 0) left (omega arith)
  take_levels-sum left (level ∷ levels) h fits all = elim (Bool-cases (eq_ℤ left (pos 0))) [
    | inl done ↦ rw done (sum_ℤ-nil (λ (e : PaperLevelExecution). e.quantity) ∙ ground arith)
    | inr more ↦
        let behind = total-positive levels all.1 in
        let fits' : left ≤ℤ level.quantity +ℤ total levels =
          rw (sum_ℤ-cons (λ (level : ParsedBookLevel). level.quantity) level levels) at fits in
        elim (Bool-cases (eq_ℤ (min_big_int level.quantity left) (pos 0))) [
          | inl none_here ↦
              rw (more, none_here)
                (take_levels-sum left levels h
                  (min_none level.quantity left (total levels) (all.0).amount h behind fits'
                    none_here)
                  all.1)
          | inr some_here ↦
              rw
                (
                  more,
                  some_here,
                  sum_ℤ-cons (λ (e : PaperLevelExecution). e.quantity)
                      (execution level.price_minor (min_big_int level.quantity left))
                      (take_levels (left -ℤ min_big_int level.quantity left) levels),
                  take_levels-sum (left -ℤ min_big_int level.quantity left) levels
                      (min_left level.quantity left)
                      (min_fits level.quantity left (total levels) behind fits') all.1,
                )
                (add-sub (min_big_int level.quantity left) left)
        ]
  ]

-- The simulated fill of an order with a positive quantity.
pub record IsFill (input : PaperLimitExecutionInput) (simulation : FillSimulation) : Type 0 where
  pub whole :
      sum_ℤ (λ (e : PaperLevelExecution). e.quantity) simulation.executions
      ≡ simulation.fill_quantity
  pub each : All (IsExecution input) simulation.executions
  pub amount : pos 0 ≤ℤ simulation.fill_quantity
  pub within_order : simulation.fill_quantity ≤ℤ input.order.remaining_quantity
  pub within_book : simulation.fill_quantity ≤ℤ simulation.simulated_available_quantity

pub record IsParsed (level : ParsedBookLevel) : Type 0 where
  pub price : pos 0 <ℤ level.price_minor
  pub amount : pos 0 <ℤ level.quantity

desired-bounds :
    (input : PaperLimitExecutionInput) (available : ℤ)
    → pos 0 <ℤ input.order.remaining_quantity
    → pos 0 ≤ℤ available
    → (pos 0 ≤ℤ desired_fill_quantity input available)
      × (desired_fill_quantity input available ≤ℤ input.order.remaining_quantity)
      × (desired_fill_quantity input available ≤ℤ available)
unfolding desired_fill_quantity
desired-bounds input available p q = (ground arith, ground arith, ground arith)

share-positive :
    (q share : ℤ) → pos 0 <ℤ q → pos 0 ≤ℤ share → pos 0 ≤ℤ q *ℤ share /ℤ basis_point_scale
unfolding ◌*ℤ◌ ◌/ℤ◌
share-positive (pos q) (pos share) p h = omega arith
share-positive (negsuc q) share p h = absurd (omega arith)
share-positive (pos q) (negsuc share) p h = absurd (omega arith)

-- The levels that the loop runs over.
abbrev pub offered : PaperLimitExecutionInput → List ParsedBookLevel → List ParsedBookLevel
offered input levels =
    map (simulated_level input.partial_fill_policy.book_participation_basis_points)
      (qualifying_levels input levels)

offered-IsOffered :
    (input : PaperLimitExecutionInput) (levels : List ParsedBookLevel)
    → pos 0 ≤ℤ input.partial_fill_policy.book_participation_basis_points
    → All IsParsed levels
    → All (IsOffered input) (offered input levels)
unfolding qualifying_levels simulated_level
offered-IsOffered input levels share all =
    let share_of = input.partial_fill_policy.book_participation_basis_points in
    let within = λ (level : ParsedBookLevel).
      is_within input.order.side input.order.limit_price_minor level.price_minor in
    All-of_map (IsOffered input) (simulated_level share_of) (filter within levels) (
      All-map
        (λ level (parsed, good). record {
          amount = share-positive level.quantity share_of parsed.amount share;
          within = good;
        })
        (filter within levels) (All-filter IsParsed within levels all))

pub simulate_book_fill-IsFill :
    (input : PaperLimitExecutionInput) (levels : List ParsedBookLevel)
    → pos 0 <ℤ input.order.remaining_quantity
    → pos 0 ≤ℤ input.partial_fill_policy.book_participation_basis_points
    → All IsParsed levels
    → IsFill input (simulate_book_fill input levels)
unfolding simulate_book_fill
simulate_book_fill-IsFill input levels p share all =
    let good = offered-IsOffered input levels share all in
    let available = total-positive input (offered input levels) good in
    let (amount, order, book) = desired-bounds input (total (offered input levels)) p available in
    record {
      whole =
          take_levels-sum input (desired_fill_quantity input (total (offered input levels)))
            (offered input levels) amount book good;
      each =
          take_levels-IsExecution input (desired_fill_quantity input (total (offered input levels)))
            (offered input levels) amount good;
      amount = amount;
      within_order = order;
      within_book = book;
    }
