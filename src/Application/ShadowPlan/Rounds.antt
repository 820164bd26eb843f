-- ===== src/Application/ShadowPlan/Rounds.antt =====
-- What one sale and one purchase of a plan are rounded to.
use portfolio_rebalancer.Prelude.{
  ℤ, pos, ◌≤ℤ◌, ◌*ℤ◌, int_laws, ltb_ℤ, sum_ℤ, sum_ℤ-nil, sum_ℤ-cons, text_eq, Bool-cases, List, [],
  ◌∷◌, filter, find, All, All-map, All-filter, All-of_map, Result, ok, err, >>=-eq-ok, ok-injective,
  map_ok, arith, ◌≡◌, refl, sym, subst, inl, inr,
}
use portfolio_rebalancer.Domain.{DomainError}
use portfolio_rebalancer.Domain.OrderRounding.{
  buy, sell, KrOrderRoundingInput, RoundedKrOrder, price_order, round_kr_order,
}
use portfolio_rebalancer.Domain.OrderRounding.Bounds.{
  IsRounded, round_cases, whole_shares, round_kr_order_bounds,
}
use portfolio_rebalancer.Domain.Cash.{CashAllocation}
use portfolio_rebalancer.Application.ShadowPlan.{
  ShadowPlanReasonCode, sellable_quantity_missing, sellable_quantity_insufficient,
  ShadowInstrumentDecision, ShadowExecutableOrder, ShadowDeferredBuyNeed,
}
use portfolio_rebalancer.Application.ShadowPlan.Orders.{
  attempt, attempt_or, available_or, sale_of, get_required, is_orderable, RoundedNeed,
  to_executable_order, orders_of, purchase_of, create_deferred_buy_need, round_sale, defer_purchase,
  round_purchase,
}

pub attempt-eq-ok :
    {A : Type 0} (call : Result DomainError A) {a : A} → attempt call ≡ ok a → call ≡ ok a
attempt-eq-ok (err e) h = cc
attempt-eq-ok (ok b) h = cc

pub attempt_or-eq-ok :
    {A : Type 0} (reason : ShadowPlanReasonCode) (call : Result DomainError A) {a : A}
    → attempt_or reason call ≡ ok a
    → call ≡ ok a
attempt_or-eq-ok reason (err e) h = cc
attempt_or-eq-ok reason (ok b) h = cc

-- What a `map` with errors gives comes from its elements.
pub map_ok-origin :
    {E A B : Type 0} (f : A → Result E B) (P : B → Type 0) (xs : List A) {ys : List B}
    → ((x : A) (y : B) → f x ≡ ok y → P y)
    → map_ok f xs ≡ ok ys
    → All P ys
unfolding map_ok
map_ok-origin f P [] each h = subst (λ ys. All P ys) (ok-injective h) tt
map_ok-origin f P (x ∷ xs) each h =
    let (y, first, rest) = >>=-eq-ok (f x) _ h in
    let (zs, second, last) = >>=-eq-ok (map_ok f xs) _ rest in
    subst (λ ys. All P ys) (ok-injective last) (each x y first, map_ok-origin f P xs each second)

priced-side : (i : KrOrderRoundingInput) (quantity : ℤ) → (price_order i quantity).side ≡ i.side
unfolding price_order
priced-side i quantity =
    elim (Bool-cases (ltb_ℤ (quantity *ℤ i.price_minor) i.minimum_order_minor)) [
      | inl small ↦ rw small refl
      | inr large ↦ rw large refl
    ]

round-side :
    (i : KrOrderRoundingInput) {r : RoundedKrOrder} → round_kr_order i ≡ ok r → r.side ≡ i.side
round-side i {r} h =
    let (priced, cases) = round_cases i h in
    elim cases [
      | inl (zero, e) ↦ subst (λ o. o.side ≡ i.side) (sym e) refl
      | inr (more, fits, e) ↦ subst (λ o. o.side ≡ i.side) (sym e) (priced-side i (whole_shares i))
    ]

within-desired :
    (i : KrOrderRoundingInput) (o : RoundedKrOrder)
    → IsRounded i o
    → o.notional_minor ≤ℤ i.desired_notional_minor
within-desired i o b =
    let (notional, total, left, fits, explained) = b in
    subst (λ x. o.notional_minor ≤ℤ x) total (omega (int_laws, left))

-- A rounded need: an order on the side of its phase for no more than its funds.
pub record IsFunded (item : RoundedNeed) : Type 0 where
  pub side : item.rounded.side ≡ buy
  pub within : item.rounded.notional_minor ≤ℤ item.funded_minor
  pub funds : pos 0 ≤ℤ item.funded_minor

pub round_sale-sell :
    (minimum : ℤ) (need : ShadowInstrumentDecision) (item : RoundedNeed)
    → round_sale minimum need ≡ ok item
    → item.rounded.side ≡ sell
unfolding round_sale
round_sale-sell minimum need item h =
    let (available, found, rest) =
      >>=-eq-ok (available_or sellable_quantity_missing need.available_sell_quantity) _ h in
    let input = sale_of need available minimum in
    let (rounded, call, last) =
      >>=-eq-ok (attempt_or sellable_quantity_insufficient (round_kr_order input)) _ rest in
    subst (λ (i : RoundedNeed). i.rounded.side ≡ sell) (ok-injective last)
      (round-side input
        (attempt_or-eq-ok sellable_quantity_insufficient (round_kr_order input) call))

pub round_purchase-IsFunded :
    (minimum : ℤ) (needs : List ShadowInstrumentDecision) (a : CashAllocation) (item : RoundedNeed)
    → round_purchase minimum needs a ≡ ok item
    → (item.funded_minor ≡ a.allocated_minor) × IsFunded item
unfolding round_purchase
round_purchase-IsFunded minimum needs a item h =
    let (need, found, rest) =
      >>=-eq-ok (get_required a.id (find (λ need. text_eq need.instrument_key a.id) needs)) _ h in
    let (rounded, call, last) =
      >>=-eq-ok (attempt (round_kr_order (purchase_of need a.allocated_minor minimum))) _ rest in
    let r = attempt-eq-ok (round_kr_order (purchase_of need a.allocated_minor minimum)) call in
    let bounds = round_kr_order_bounds (purchase_of need a.allocated_minor minimum) r in
    let (priced, cases) = round_cases (purchase_of need a.allocated_minor minimum) r in
    let good : IsFunded
        (record { need = need; funded_minor = a.allocated_minor; rounded = rounded }) =
      record {
        side = round-side (purchase_of need a.allocated_minor minimum) r;
        within = within-desired (purchase_of need a.allocated_minor minimum) rounded bounds;
        funds = priced.desired;
      } in
    subst (λ i. (i.funded_minor ≡ a.allocated_minor) × IsFunded i) (ok-injective last) (refl, good)

pub orders_of-All :
    (P : ShadowExecutableOrder → Type 0) (items : List RoundedNeed)
    → All (λ item. P (to_executable_order item.need item.rounded)) items
    → All P (orders_of items)
unfolding orders_of
orders_of-All P items all =
    All-of_map P (λ item. to_executable_order item.need item.rounded)
      (filter (λ item. is_orderable item.rounded.status) items)
      (All-map (λ item (p, q). p) (filter (λ item. is_orderable item.rounded.status) items)
        (All-filter _ (λ item. is_orderable item.rounded.status) items all))

-- Purchases cost no more than their funds.
pub orders_of-within :
    (items : List RoundedNeed)
    → All IsFunded items
    → sum_ℤ (λ (o : ShadowExecutableOrder). o.notional_minor) (orders_of items)
      ≤ℤ sum_ℤ (λ (item : RoundedNeed). item.funded_minor) items
unfolding orders_of to_executable_order
orders_of-within [] all =
    rw
      (
        sum_ℤ-nil (λ (o : ShadowExecutableOrder). o.notional_minor),
        sum_ℤ-nil (λ (item : RoundedNeed). item.funded_minor),
      )
      (omega arith)
orders_of-within (item ∷ items) all = elim (Bool-cases (is_orderable item.rounded.status)) [
  | inl kept ↦
      rw
        (
          kept,
          sum_ℤ-cons (λ (o : ShadowExecutableOrder). o.notional_minor)
              (to_executable_order item.need item.rounded) (orders_of items),
          sum_ℤ-cons (λ (item : RoundedNeed). item.funded_minor) item items,
        )
        (omega (int_laws, orders_of-within items all.1, (all.0).within))
  | inr left_out ↦
      rw (left_out, sum_ℤ-cons (λ (item : RoundedNeed). item.funded_minor) item items)
        (omega (int_laws, orders_of-within items all.1, (all.0).funds))
]

-- A purchase that waits for the sales is not executed.
pub defer_purchase-waits :
    (minimum : ℤ) (need : ShadowInstrumentDecision) (d : ShadowDeferredBuyNeed)
    → defer_purchase minimum need ≡ ok d
    → d.executable_notional_minor ≡ pos 0
unfolding defer_purchase create_deferred_buy_need
defer_purchase-waits minimum need d h =
    let (rounded, call, rest) =
      >>=-eq-ok (attempt (round_kr_order (purchase_of need need.delta_minor minimum))) _ h in
    let (preview, call', last) =
      >>=-eq-ok (attempt (round_kr_order (purchase_of need need.delta_minor (pos 0)))) _ rest in
    subst (λ (x : ShadowDeferredBuyNeed). x.executable_notional_minor ≡ pos 0) (ok-injective last)
      refl
