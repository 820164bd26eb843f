-- ===== src/Application/OrderReservation/Covered.antt =====
-- A reserved amount covers every fill that the order can have.
use portfolio_rebalancer.Prelude.{
  ℤ, pos, ◌*ℤ◌, ◌≤ℤ◌, ◌<ℤ◌, true, Option, none, some, ◌≡◌, subst, *ℤ_mono, ◌↔◌, arith, int_laws,
}
use portfolio_rebalancer.Domain.OrderRounding.{Side, buy, sell}
use portfolio_rebalancer.Application.OrderReservation.{
  ReservationInput, max_signed_64, multiply_within_signed64, reserve_sale, reserve_planned,
  calculate_order_gross_reservation, ready_reservation,
}

-- The highest price at which the order can fill: a purchase at its limit, a sale at the upper price
-- limit of the day.
abbrev pub highest_price : Side → ℤ → Option ℤ → Option ℤ
highest_price buy limit upper = some limit
highest_price sell limit none = none
highest_price sell limit (some upper) = some upper

-- The price exists, is no lower than the limit, and the amount at that price is a signed 64-bit
-- number.
abbrev pub IsCoverable : ℤ → ℤ → Option ℤ → Type 0
IsCoverable quantity limit none = ⊥
IsCoverable quantity limit (some price) = (limit ≤ℤ price) × (quantity *ℤ price ≤ℤ max_signed_64)

-- When a reservation is granted.
pub record IsReservable (input : ReservationInput) : Type 0 where
  pub quantity : pos 0 <ℤ input.quantity
  pub limit : pos 0 <ℤ input.limit_price_minor
  pub planned : input.quantity *ℤ input.limit_price_minor ≤ℤ max_signed_64
  pub coverable :
      IsCoverable input.quantity input.limit_price_minor
        (highest_price input.side input.limit_price_minor input.upper_price_limit_minor)

-- A reservation is granted exactly when quantity and limit price are positive, the planned amount is a
-- signed 64-bit number, and there is a highest price of a fill, no lower than the limit, at which the
-- amount is one too.
pub reserves_iff :
    (input : ReservationInput)
    → ((calculate_order_gross_reservation input).can_reserve ≡ true) ↔ IsReservable input
unfolding calculate_order_gross_reservation reserve_planned reserve_sale multiply_within_signed64
reserves_iff input = ground arith

abbrev as_input : Side → ℤ → ℤ → Option ℤ → ReservationInput
as_input side quantity limit upper = record {
  side = side;
  quantity = quantity;
  limit_price_minor = limit;
  upper_price_limit_minor = upper;
}

-- The amounts of a granted reservation.
amounts :
    (side : Side) (quantity limit : ℤ) (upper : Option ℤ) {highest : ℤ}
    → (calculate_order_gross_reservation (as_input side quantity limit upper)).can_reserve ≡ true
    → highest_price side limit upper ≡ some highest
    → calculate_order_gross_reservation (as_input side quantity limit upper)
      ≡ ready_reservation (quantity *ℤ limit) (quantity *ℤ highest)
unfolding calculate_order_gross_reservation reserve_planned reserve_sale multiply_within_signed64
amounts buy quantity limit upper h e = ground arith
amounts sell quantity limit none h e = absurd (ground arith)
amounts sell quantity limit (some upper) h e = ground arith

-- A granted reservation plans the amount at the limit price and reserves the amount at the highest
-- price of a fill, which is no lower and a signed 64-bit number; and a fill of at most the ordered
-- quantity, at a price from 0 to the highest price, never costs or yields more than what is reserved.
pub reservation_covers :
    (input : ReservationInput) {highest : ℤ} (quantity price : ℤ)
    → (calculate_order_gross_reservation input).can_reserve ≡ true
    → highest_price input.side input.limit_price_minor input.upper_price_limit_minor ≡ some highest
    → pos 0 ≤ℤ quantity
    → quantity ≤ℤ input.quantity
    → pos 0 ≤ℤ price
    → price ≤ℤ highest
    → (calculate_order_gross_reservation input
        ≡ ready_reservation (input.quantity *ℤ input.limit_price_minor) (input.quantity *ℤ highest))
      × (input.quantity *ℤ input.limit_price_minor ≤ℤ input.quantity *ℤ highest)
      × (input.quantity *ℤ highest ≤ℤ max_signed_64)
      × (quantity *ℤ price ≤ℤ input.quantity *ℤ highest)
reservation_covers input {highest} quantity price h found q0 q p0 p =
    let v = (reserves_iff input).0 h in
    let positive = v.quantity in
    let limit = v.limit in
    let (above, bounded) : IsCoverable input.quantity input.limit_price_minor (some highest) =
      subst (IsCoverable input.quantity input.limit_price_minor) found v.coverable in
    (
      amounts input.side input.quantity input.limit_price_minor input.upper_price_limit_minor h
          found,
      *ℤ_mono input.quantity input.quantity input.limit_price_minor highest (omega int_laws)
          (omega int_laws) (omega int_laws) above,
      bounded,
      *ℤ_mono quantity input.quantity price highest q0 q p0 p,
    )
