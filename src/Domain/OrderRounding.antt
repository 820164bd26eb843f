-- ===== src/Domain/OrderRounding.antt =====
-- packages/domain/src/rebalance.ts, `roundKrOrder`: Korean orders are whole shares, rounded down.
pub mod Bounds
mod Examples
use portfolio_rebalancer.Prelude.{
  ℤ, pos, ◌-ℤ◌, ◌*ℤ◌, ◌/ℤ◌, ltb_ℤ, leb_ℤ, eq_ℤ, Text, Bool, false, ◌||◌, ◌&&◌, Option, none, some,
  if◌then◌else◌, Result, ok, err, ◌>>=◌, ◌>>◌, throw_if,
}
use portfolio_rebalancer.Domain.{
  order_candidate, DomainError, bad_order_amounts, negative_available, sell_exceeds_available,
}
use portfolio_rebalancer.Domain.Rebalance.{validate_non_empty_id}

pub data Side : Type 0 where
  buy sell : Side

pub data RoundedStatus : Type 0 where
  orderable below_minimum zero_quantity : RoundedStatus

pub record KrOrderRoundingInput : Type 0 where
  pub id : Text
  pub side : Side
  pub desired_notional_minor : ℤ
  pub price_minor : ℤ
  pub minimum_order_minor : ℤ
  pub available_quantity : Option ℤ

pub record RoundedKrOrder : Type 0 where
  pub id : Text
  pub side : Side
  pub status : RoundedStatus
  pub quantity : ℤ
  pub notional_minor : ℤ
  pub unallocated_minor : ℤ

-- `available !== undefined && available < 0n`
abbrev pub is_negative_quantity : Option ℤ → Bool
is_negative_quantity none = false
is_negative_quantity (some n) = ltb_ℤ n (pos 0)

abbrev pub exceeds_available : Side → Option ℤ → ℤ → Bool
exceeds_available buy available quantity = false
exceeds_available sell none quantity = false
exceeds_available sell (some n) quantity = ltb_ℤ n quantity

-- The two results with nothing to order.
abbrev pub unordered : KrOrderRoundingInput → RoundedStatus → RoundedKrOrder
unordered input status = record {
  id = input.id;
  side = input.side;
  status = status;
  quantity = pos 0;
  notional_minor = pos 0;
  unallocated_minor = input.desired_notional_minor;
}

-- What follows once the quantity is known not to be 0.
unfoldable pub price_order : KrOrderRoundingInput → ℤ → RoundedKrOrder
price_order input quantity =
    let notional = quantity *ℤ input.price_minor in
    if ltb_ℤ notional input.minimum_order_minor then unordered input below_minimum else record {
      id = input.id;
      side = input.side;
      status = orderable;
      quantity = quantity;
      notional_minor = notional;
      unallocated_minor = input.desired_notional_minor -ℤ notional;
    }

unfoldable pub round_kr_order : KrOrderRoundingInput → Result DomainError RoundedKrOrder
unfolding price_order
round_kr_order input = do
  validate_non_empty_id order_candidate input.id
  throw_if
      (ltb_ℤ input.desired_notional_minor (pos 0)
        || leb_ℤ input.price_minor (pos 0)
        || ltb_ℤ input.minimum_order_minor (pos 0))
      bad_order_amounts
  throw_if (is_negative_quantity input.available_quantity) negative_available
  let quantity = input.desired_notional_minor /ℤ input.price_minor
  if eq_ℤ quantity (pos 0)
      then ok (unordered input zero_quantity)
      else throw_if (exceeds_available input.side input.available_quantity quantity)
          (sell_exceeds_available input.id)
        >> ok (price_order input quantity)
