-- ===== src/Domain/OrderRounding/Bounds.antt =====
-- A rounded order never spends or sells more than was asked.
use portfolio_rebalancer.Prelude.{
  ℤ, pos, ◌+ℤ◌, ◌*ℤ◌, ◌/ℤ◌, ◌≤ℤ◌, ◌<ℤ◌, ltb_ℤ, eq_ℤ, is_blank, true, false, Option, none, some, ok,
  succeeds, arith, int_laws, quotient_lem, zero-*ℤ, ◌≡◌, sym, refl, ◌↔◌, ◌⊎◌, inl, inr, Bool-cases,
  ltb_ℤ_iff, ltb_ℤ-false_iff,
}
use portfolio_rebalancer.Domain.Rebalance.{validate_non_empty_id}
use portfolio_rebalancer.Domain.OrderRounding.{
  Side, buy, sell, orderable, below_minimum, zero_quantity, KrOrderRoundingInput, RoundedKrOrder,
  is_negative_quantity, exceeds_available, unordered, price_order, round_kr_order,
}

-- The input passed every check of its amounts.
pub record IsPriced (input : KrOrderRoundingInput) : Type 0 where
  pub desired : pos 0 ≤ℤ input.desired_notional_minor
  pub price : pos 0 <ℤ input.price_minor
  pub minimum : pos 0 ≤ℤ input.minimum_order_minor

abbrev pub Fits : Side → Option ℤ → ℤ → Type 0
Fits buy available quantity = Unit
Fits sell none quantity = Unit
Fits sell (some n) quantity = quantity ≤ℤ n

-- Why an order has the status it has.
abbrev pub IsExplained : KrOrderRoundingInput → RoundedKrOrder → Type 0
IsExplained input o =
    ((o.status ≡ zero_quantity)
      × (o.quantity ≡ pos 0)
      × (input.desired_notional_minor <ℤ input.price_minor))
    ⊎ ((o.status ≡ below_minimum)
        × (o.quantity ≡ pos 0)
        × (input.desired_notional_minor /ℤ input.price_minor *ℤ input.price_minor
            <ℤ input.minimum_order_minor))
    ⊎ ((o.status ≡ orderable)
        × (pos 0 <ℤ o.quantity)
        × (input.minimum_order_minor ≤ℤ o.notional_minor)
        × (o.unallocated_minor <ℤ input.price_minor))

abbrev pub whole_shares : KrOrderRoundingInput → ℤ
whole_shares input = input.desired_notional_minor /ℤ input.price_minor

-- The three ways to return.
pub round_cases :
    (input : KrOrderRoundingInput) {o : RoundedKrOrder}
    → round_kr_order input ≡ ok o
    → IsPriced input
      × ((eq_ℤ (whole_shares input) (pos 0) ≡ true) × (o ≡ unordered input zero_quantity)
          ⊎ (eq_ℤ (whole_shares input) (pos 0) ≡ false)
            × (exceeds_available input.side input.available_quantity (whole_shares input) ≡ false)
            × (o ≡ price_order input (whole_shares input)))
unfolding round_kr_order validate_non_empty_id
round_cases input h = ground arith

exceeds→Fits :
    (side : Side) (available : Option ℤ) (quantity : ℤ)
    → exceeds_available side available quantity ≡ false
    → Fits side available quantity
exceeds→Fits buy available quantity h = tt
exceeds→Fits sell none quantity h = tt
exceeds→Fits sell (some n) quantity h = ground arith

zero→Fits :
    (side : Side) (available : Option ℤ)
    → is_negative_quantity available ≡ false
    → Fits side available (pos 0)
zero→Fits buy available h = tt
zero→Fits sell none h = tt
zero→Fits sell (some n) h = ground arith

available-ok :
    (input : KrOrderRoundingInput) {o : RoundedKrOrder}
    → round_kr_order input ≡ ok o
    → is_negative_quantity input.available_quantity ≡ false
unfolding round_kr_order validate_non_empty_id
available-ok input h = ground arith

-- What an order promises of its input.
abbrev pub IsRounded : KrOrderRoundingInput → RoundedKrOrder → Type 0
IsRounded input o =
    (o.notional_minor ≡ o.quantity *ℤ input.price_minor)
    × (o.notional_minor +ℤ o.unallocated_minor ≡ input.desired_notional_minor)
    × (pos 0 ≤ℤ o.unallocated_minor)
    × Fits o.side input.available_quantity o.quantity
    × IsExplained input o

unordered-zero :
    (input : KrOrderRoundingInput)
    → IsPriced input
    → is_negative_quantity input.available_quantity ≡ false
    → eq_ℤ (whole_shares input) (pos 0) ≡ true
    → IsRounded input (unordered input zero_quantity)
unordered-zero input v available z =
    let (low, below, above) =
      quotient_lem input.desired_notional_minor input.price_minor v.desired v.price in
    let none_fit : whole_shares input ≡ pos 0 = ground arith in
    let short : input.desired_notional_minor <ℤ pos 0 +ℤ input.price_minor =
      rw (none_fit, zero-*ℤ input.price_minor) at above in
    (
      sym (zero-*ℤ input.price_minor),
      omega int_laws,
      v.desired,
      zero→Fits input.side input.available_quantity available,
      inl (refl, refl, omega int_laws),
    )

price_order-IsRounded :
    (input : KrOrderRoundingInput)
    → IsPriced input
    → is_negative_quantity input.available_quantity ≡ false
    → eq_ℤ (whole_shares input) (pos 0) ≡ false
    → exceeds_available input.side input.available_quantity (whole_shares input) ≡ false
    → IsRounded input (price_order input (whole_shares input))
unfolding price_order
price_order-IsRounded input v available z fits =
    let (low, below, above) =
      quotient_lem input.desired_notional_minor input.price_minor v.desired v.price in
    let positive : pos 0 <ℤ whole_shares input = ground arith in
    elim (Bool-cases (ltb_ℤ (whole_shares input *ℤ input.price_minor) input.minimum_order_minor)) [
      | inl small ↦ rw small (
        sym (zero-*ℤ input.price_minor),
        omega int_laws,
        v.desired,
        zero→Fits input.side input.available_quantity available,
        inr (
            inl (
              refl,
              refl,
              (ltb_ℤ_iff (whole_shares input *ℤ input.price_minor) input.minimum_order_minor).0
                  small,
            )),
      )
      | inr large ↦ rw large (
        refl,
        omega int_laws,
        omega int_laws,
        exceeds→Fits input.side input.available_quantity (whole_shares input) fits,
        inr (
            inr (
              refl,
              positive,
              (ltb_ℤ-false_iff (whole_shares input *ℤ input.price_minor)
                    input.minimum_order_minor).0
                  large,
              omega int_laws,
            )),
      )
    ]

-- A rounded order names whole shares at the given price; with what stays unallocated it makes up
-- exactly the desired amount; a sale stays within the available shares; and an order to place has at
-- least one share, reaches the minimum and leaves less than one share's price, while the two other
-- results order nothing because less than one share fits or the whole shares miss the minimum.
pub round_kr_order_bounds :
    (input : KrOrderRoundingInput) {o : RoundedKrOrder}
    → round_kr_order input ≡ ok o
    → IsRounded input o
round_kr_order_bounds input h =
    let (v, cases) = round_cases input h in
    let available = available-ok input h in
    elim cases [
      | inl (z, e) ↦ rw e (unordered-zero input v available z)
      | inr (z, fits, e) ↦ rw e (price_order-IsRounded input v available z fits)
    ]

-- An order can be rounded.
pub record IsRoundable (input : KrOrderRoundingInput) : Type 0 where
  pub named : is_blank input.id ≡ false
  pub priced : IsPriced input
  pub available : is_negative_quantity input.available_quantity ≡ false
  pub covered : Fits input.side input.available_quantity (whole_shares input)

Fits-iff :
    (side : Side) (available : Option ℤ) (quantity : ℤ)
    → (exceeds_available side available quantity ≡ false) ↔ Fits side available quantity
Fits-iff buy available quantity = (λ h. tt, λ h. refl)
Fits-iff sell none quantity = (λ h. tt, λ h. refl)
Fits-iff sell (some n) quantity = ground arith

-- Rounding returns exactly when the identifier is not blank, the desired amount and the minimum are not
-- negative, the price is positive, and a sale has at least its whole shares available, where the
-- available shares, if they are given, are not negative.
pub round_kr_order_returns_iff :
    (input : KrOrderRoundingInput) → (succeeds (round_kr_order input) ≡ true) ↔ IsRoundable input
unfolding round_kr_order validate_non_empty_id
round_kr_order_returns_iff input =
    let fits = Fits-iff input.side input.available_quantity (whole_shares input) in
    (
      λ h.
          let (named, priced, available, covered) : (is_blank input.id ≡ false)
              × IsPriced input
              × (is_negative_quantity input.available_quantity ≡ false)
              × (exceeds_available input.side input.available_quantity (whole_shares input)
                  ≡ false) =
            ground arith in
          record {
            named = named;
            priced = priced;
            available = available;
            covered = fits.0 covered;
          },
      λ v.
          let named = v.named in
          let desired = v.priced.desired in
          let price = v.priced.price in
          let minimum = v.priced.minimum in
          let available = v.available in let covered = fits.1 v.covered in ground arith,
    )
