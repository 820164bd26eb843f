-- ===== src/Application/OrderReservation/Examples.antt =====
-- The reservation of a sale.
use portfolio_rebalancer.Prelude.{pos, ◌*ℤ◌, ◌≤ℤ◌, some, true, ◌≡◌, refl, ◌↔◌, arith}
use portfolio_rebalancer.Domain.OrderRounding.{sell}
use portfolio_rebalancer.Application.OrderReservation.{
  ReservationInput, max_signed_64, ready_reservation, multiply_within_signed64, reserve_sale,
  reserve_planned, calculate_order_gross_reservation,
}
use portfolio_rebalancer.Application.OrderReservation.Covered.{
  IsReservable, reserves_iff, reservation_covers,
}

abbrev sale : ReservationInput
sale = record {
  side = sell;
  quantity = pos 10;
  limit_price_minor = pos 900;
  upper_price_limit_minor = some (pos 1300);
}

reserves_iff_example :
    ((calculate_order_gross_reservation sale).can_reserve ≡ true) ↔ IsReservable sale
reserves_iff_example = reserves_iff sale

granted : (calculate_order_gross_reservation sale).can_reserve ≡ true
unfolding calculate_order_gross_reservation reserve_planned reserve_sale multiply_within_signed64
    ◌*ℤ◌
granted = refl

-- Seven shares are sold at 1250.
reservation_covers_example :
    (calculate_order_gross_reservation sale
      ≡ ready_reservation (pos 10 *ℤ pos 900) (pos 10 *ℤ pos 1300))
    × (pos 10 *ℤ pos 900 ≤ℤ pos 10 *ℤ pos 1300)
    × (pos 10 *ℤ pos 1300 ≤ℤ max_signed_64)
    × (pos 7 *ℤ pos 1250 ≤ℤ pos 10 *ℤ pos 1300)
reservation_covers_example =
    reservation_covers sale (pos 7) (pos 1250) granted refl (omega arith) (omega arith)
      (omega arith) (omega arith)
