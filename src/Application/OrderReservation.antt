-- ===== src/Application/OrderReservation.antt =====
-- packages/application/src/order-reservation.ts: the turnover reserved before an order is sent.
pub mod Covered
mod Examples
use portfolio_rebalancer.Prelude.{
  ℤ, pos, ◌*ℤ◌, ltb_ℤ, leb_ℤ, Bool, true, false, ◌||◌, Option, none, some, if◌then◌else◌,
}
use portfolio_rebalancer.Domain.OrderRounding.{Side, buy, sell}

pub data OrderReservationReasonCode : Type 0 where
  order_reservation_ready : OrderReservationReasonCode
  order_reservation_input_invalid : OrderReservationReasonCode
  sell_upper_price_limit_missing : OrderReservationReasonCode
  sell_upper_price_limit_invalid : OrderReservationReasonCode
  order_reservation_overflow : OrderReservationReasonCode

pub data ReservationStatus : Type 0 where
  ready_to_reserve blocked_from_reserving : ReservationStatus

-- The Korean message of each decision is left out.
pub record OrderGrossReservationDecision : Type 0 where
  pub status : ReservationStatus
  pub can_reserve : Bool
  pub reason_code : OrderReservationReasonCode
  pub planned_gross_minor : Option ℤ
  pub reserved_gross_minor : Option ℤ

pub record ReservationInput : Type 0 where
  pub side : Side
  pub quantity : ℤ
  pub limit_price_minor : ℤ
  pub upper_price_limit_minor : Option ℤ

abbrev pub max_signed_64 : ℤ
max_signed_64 = pos 9223372036854775807

unfoldable pub multiply_within_signed64 : ℤ → ℤ → Option ℤ
multiply_within_signed64 left right =
    let product = left *ℤ right in if leb_ℤ product max_signed_64 then some product else none

abbrev pub ready_reservation : ℤ → ℤ → OrderGrossReservationDecision
ready_reservation planned reserved = record {
  status = ready_to_reserve;
  can_reserve = true;
  reason_code = order_reservation_ready;
  planned_gross_minor = some planned;
  reserved_gross_minor = some reserved;
}

abbrev pub blocked_reservation :
    OrderReservationReasonCode → Option ℤ → OrderGrossReservationDecision
blocked_reservation reason planned = record {
  status = blocked_from_reserving;
  can_reserve = false;
  reason_code = reason;
  planned_gross_minor = planned;
  reserved_gross_minor = none;
}

-- The end of the calculation for a sale, from the product with the upper price limit.
abbrev pub reserve_product : ℤ → Option ℤ → OrderGrossReservationDecision
reserve_product planned none = blocked_reservation order_reservation_overflow (some planned)
reserve_product planned (some reserved) = ready_reservation planned reserved

-- The calculation for a sale whose planned amount is known.
unfoldable pub reserve_sale : ReservationInput → ℤ → Option ℤ → OrderGrossReservationDecision
reserve_sale input planned none = blocked_reservation sell_upper_price_limit_missing (some planned)
reserve_sale input planned (some upper) =
    if ltb_ℤ upper input.limit_price_minor || leb_ℤ upper (pos 0)
    then blocked_reservation sell_upper_price_limit_invalid (some planned)
    else reserve_product planned (multiply_within_signed64 input.quantity upper)

-- From the planned amount on.
unfoldable pub reserve_planned : ReservationInput → Side → Option ℤ → OrderGrossReservationDecision
reserve_planned input side none = blocked_reservation order_reservation_overflow none
reserve_planned input buy (some planned) = ready_reservation planned planned
reserve_planned input sell (some planned) = reserve_sale input planned input.upper_price_limit_minor

unfoldable pub calculate_order_gross_reservation : ReservationInput → OrderGrossReservationDecision
calculate_order_gross_reservation input =
    if leb_ℤ input.quantity (pos 0) || leb_ℤ input.limit_price_minor (pos 0)
    then blocked_reservation order_reservation_input_invalid none
    else reserve_planned input input.side
        (multiply_within_signed64 input.quantity input.limit_price_minor)
