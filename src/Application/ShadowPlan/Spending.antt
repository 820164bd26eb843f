-- ===== src/Application/ShadowPlan/Spending.antt =====
-- The purchases of a plan cost no more than the spendable cash.
use portfolio_rebalancer.Prelude.{
  ℤ, pos, ◌≤ℤ◌, ◌+ℤ◌, int_laws, sum_ℤ, sum_ℤ-nil, sum_ℤ-cons, sum_ℤ-append, sum_ℤ-map, Text,
  Distinct, TextMap, map_get, map_from, map_of, not, List, [], ◌∷◌, ◌++◌, map, filter, All, All-map,
  All-of_map, All-append, All2-right, ok, >>=-eq-ok, ok-injective, map_ok, arith, ◌≡◌, subst,
}
use portfolio_rebalancer.Domain.OrderRounding.{buy}
use portfolio_rebalancer.Domain.Cash.{
  CashPriorityCandidate, CashAllocation, SpendableCashAllocation, allocate_spendable_cash,
}
use portfolio_rebalancer.Domain.Cash.Conserved.{IsConserved, cash-IsConserved}
use portfolio_rebalancer.Application.ShadowPlan.{
  is_cash, ShadowInstrumentDecision, ShadowAssetDecision, ShadowExecutableOrder,
}
use portfolio_rebalancer.Application.ShadowPlan.Orders.{
  attempt, RoundedNeed, orders_of, to_executable_order, is_purchase, asset_candidates,
  instrument_candidate, round_purchase, fund_needs, fund_assets, or_zero_minor, defer_rests,
  funding_entry, Phase, buy_phase,
}
use portfolio_rebalancer.Application.ShadowPlan.Rounds.{
  IsFunded, attempt-eq-ok, round_purchase-IsFunded, orders_of-within, orders_of-All,
}
use portfolio_rebalancer.Application.ShadowPlan.Funding.{
  values, IsNonNegative, amount, amount_positive, held, held-values, from_values,
}

abbrev funded : List RoundedNeed → ℤ
funded items = sum_ℤ (λ (item : RoundedNeed). item.funded_minor) items

abbrev allocated : List CashAllocation → ℤ
allocated allocations = sum_ℤ (λ (a : CashAllocation). a.allocated_minor) allocations

-- Purchases with funds of at most so much.
record IsWithin (cash : ℤ) (items : List RoundedNeed) : Type 0 where
  each : All IsFunded items
  total : funded items ≤ℤ cash

round_all :
    (minimum : ℤ) (needs : List ShadowInstrumentDecision) (shares : List CashAllocation)
    {items : List RoundedNeed}
    → map_ok (round_purchase minimum needs) shares ≡ ok items
    → IsWithin (allocated shares) items
unfolding map_ok
round_all minimum needs [] h =
    let none_left : IsWithin (allocated []) [] = record {
      each = tt;
      total =
          rw
            (
              sum_ℤ-nil (λ (item : RoundedNeed). item.funded_minor),
              sum_ℤ-nil (λ (a : CashAllocation). a.allocated_minor),
            )
            (omega arith);
    } in
    subst (IsWithin (allocated [])) (ok-injective h) none_left
round_all minimum needs (a ∷ shares) h =
    let (item, first, rest) = >>=-eq-ok (round_purchase minimum needs a) _ h in
    let (items, others, last) = >>=-eq-ok (map_ok (round_purchase minimum needs) shares) _ rest in
    let (same, good) = round_purchase-IsFunded minimum needs a item first in
    let behind = round_all minimum needs shares others in
    let all : IsWithin (allocated (a ∷ shares)) (item ∷ items) = record {
      each = (good, behind.each);
      total =
          rw
            (
              sum_ℤ-cons (λ (i : RoundedNeed). i.funded_minor) item items,
              sum_ℤ-cons (λ (a : CashAllocation). a.allocated_minor) a shares,
              same,
            )
            (omega (int_laws, behind.total));
    } in
    subst (IsWithin (allocated (a ∷ shares))) (ok-injective last) all

conserved-within :
    (candidates : List CashPriorityCandidate) (cash : ℤ) (r : SpendableCashAllocation)
    → IsConserved candidates cash r
    → allocated r.allocations ≤ℤ cash
conserved-within candidates cash r c =
    rw (c.accounted)
      (subst (λ x. r.allocated_minor ≤ℤ x) c.balanced (omega (int_laws, c.no_overdraft)))

IsWithin-trans :
    (small large : ℤ) (items : List RoundedNeed)
    → small ≤ℤ large
    → IsWithin small items
    → IsWithin large items
IsWithin-trans small large items h w = record { each = w.each; total = omega (arith, w.total) }

fund_needs-IsWithin :
    (minimum funds : ℤ) (needs : List ShadowInstrumentDecision) {items : List RoundedNeed}
    → pos 0 ≤ℤ funds
    → fund_needs minimum funds needs ≡ ok items
    → IsWithin funds items
fund_needs-IsWithin minimum funds [] p h =
    let none_left : IsWithin funds [] = record {
      each = tt;
      total = rw (sum_ℤ-nil (λ (item : RoundedNeed). item.funded_minor)) p;
    } in
    subst (IsWithin funds) (ok-injective h) none_left
fund_needs-IsWithin minimum funds (need ∷ needs) {items} p h =
    let candidates = map instrument_candidate (need ∷ needs) in
    let (funding, call, rest) =
      >>=-eq-ok (attempt (allocate_spendable_cash candidates funds)) _ h in
    let c =
      cash-IsConserved candidates funds
        (attempt-eq-ok (allocate_spendable_cash candidates funds) call) in
    IsWithin-trans (allocated funding.allocations) funds items
      (conserved-within candidates funds funding c)
      (round_all minimum (need ∷ needs) funding.allocations rest)

fund_assets-IsWithin :
    (minimum : ℤ) (m : TextMap ℤ) (assets : List ShadowAssetDecision) {items : List RoundedNeed}
    → IsNonNegative m
    → fund_assets minimum m assets ≡ ok items
    → IsWithin (held m (map (λ asset. asset.id) assets)) items
unfolding fund_assets
fund_assets-IsWithin minimum m [] p h =
    let none_left : IsWithin (held m []) [] = record {
      each = tt;
      total =
          rw (sum_ℤ-nil (λ (item : RoundedNeed). item.funded_minor), sum_ℤ-nil (amount m))
            (omega arith);
    } in
    subst (IsWithin (held m [])) (ok-injective h) none_left
fund_assets-IsWithin minimum m (asset ∷ assets) p h =
    let needs = filter is_purchase asset.instruments in
    let (here, first, rest) =
      >>=-eq-ok (fund_needs minimum (or_zero_minor (map_get asset.id m)) needs) _ h in
    let (others, second, last) = >>=-eq-ok (fund_assets minimum m assets) _ rest in
    let a =
      fund_needs-IsWithin minimum (amount m asset.id) needs (amount_positive m asset.id p) first in
    let b = fund_assets-IsWithin minimum m assets p second in
    let all : IsWithin (held m (map (λ asset. asset.id) (asset ∷ assets))) (here ++ others) =
      record {
        each = All-append IsFunded here others a.each b.each;
        total =
            rw
              (
                sum_ℤ-append (λ (item : RoundedNeed). item.funded_minor) here others,
                sum_ℤ-cons (amount m) asset.id (map (λ asset. asset.id) assets),
              )
              (omega (int_laws, a.total, b.total));
      } in
    subst (IsWithin (held m (map (λ asset. asset.id) (asset ∷ assets)))) (ok-injective last) all

-- The cash of the asset classes, by their identifiers.
abbrev cash_map : SpendableCashAllocation → TextMap ℤ
cash_map r = map_of (map (λ a. (a.id, a.allocated_minor)) r.allocations)

cash_map-within :
    (candidates : List CashPriorityCandidate) (cash : ℤ) (r : SpendableCashAllocation)
    → IsConserved candidates cash r
    → IsNonNegative (cash_map r) × (values (cash_map r) ≤ℤ cash)
unfolding map_of
cash_map-within candidates cash r c =
    let entry = λ (a : CashAllocation). (let e : Text × ℤ = (a.id, a.allocated_minor) in e) in
    let good =
      All-of_map (λ (e : Text × ℤ). pos 0 ≤ℤ e.1) entry r.allocations
        (All2-right (λ c' a s. s.2) candidates r.allocations c.served) in
    let (less, positive) = from_values [] (map entry r.allocations) tt good in
    let all : values (map entry r.allocations) ≡ allocated r.allocations =
      sum_ℤ-map (λ (e : Text × ℤ). e.1) entry r.allocations in
    let fits = conserved-within candidates cash r c in
    let start = sum_ℤ-nil (λ (e : Text × ℤ). e.1) in
    let less' : values (map_from [] (map entry r.allocations)) ≤ℤ pos 0 +ℤ allocated r.allocations =
      rw (start, all) at less in
    (positive, omega (int_laws, less', fits))

-- What the second phase promises.
pub record IsPurchase (spendable : ℤ) (phase : Phase) : Type 0 where
  pub sides : All (λ (o : ShadowExecutableOrder). o.side ≡ buy) phase.orders
  pub within : sum_ℤ (λ (o : ShadowExecutableOrder). o.notional_minor) phase.orders ≤ℤ spendable

pub buy_phase-IsPurchase :
    (minimum spendable : ℤ) (assets : List ShadowAssetDecision)
    (buys : List ShadowInstrumentDecision) {phase : Phase}
    → Distinct (map (λ asset. asset.id) (filter (λ asset. not (is_cash asset.kind)) assets))
    → buy_phase minimum spendable assets buys ≡ ok phase
    → IsPurchase spendable phase
unfolding buy_phase to_executable_order
buy_phase-IsPurchase minimum spendable assets buys d h =
    let securities = filter (λ asset. not (is_cash asset.kind)) assets in
    let (cash, call, h1) =
      >>=-eq-ok (attempt (allocate_spendable_cash (asset_candidates securities) spendable)) _ h in
    let (items, funding, h2) = >>=-eq-ok (fund_assets minimum (cash_map cash) securities) _ h1 in
    let (deferred, rests, last) =
      >>=-eq-ok (defer_rests (map_of (map funding_entry items)) buys) _ h2 in
    let c =
      cash-IsConserved (asset_candidates securities) spendable
        (attempt-eq-ok (allocate_spendable_cash (asset_candidates securities) spendable) call) in
    let (positive, fits) = cash_map-within (asset_candidates securities) spendable cash c in
    let w = fund_assets-IsWithin minimum (cash_map cash) securities positive funding in
    let split = held-values (cash_map cash) (map (λ asset. asset.id) securities) positive d in
    let cost = orders_of-within items w.each in
    let good : IsPurchase spendable (record { orders = orders_of items; deferred = deferred }) =
      record {
        sides = orders_of-All (λ o. o.side ≡ buy) items (All-map (λ item f. f.side) items w.each);
        within = omega (arith, cost, w.total, split, fits);
      } in
    subst (IsPurchase spendable) (ok-injective last) good
