-- ===== src/Application/ShadowPlan/Phases.antt =====
-- A plan has one phase: sales, or purchases from the spendable cash.
use portfolio_rebalancer.Prelude.{
  ℤ, pos, ◌≤ℤ◌, sum_ℤ, sum_ℤ-nil, Text, text_eq, contains, Distinct, Bool, Bool-cases, true, false,
  not, List, [], ◌∷◌, map, filter, find, any, All, ok, >>=-eq-ok, ok-injective, map_ok, arith, ◌≡◌,
  refl, sym, ap, subst, ◌∙◌, inl, inr,
}
use portfolio_rebalancer.Domain.OrderRounding.{buy, sell}
use portfolio_rebalancer.Domain.Rebalance.{RebalanceAssetDecision}
use portfolio_rebalancer.Application.ShadowPlan.{
  is_cash, ShadowPlanAssetClassInput, ShadowInstrumentDecision, ShadowAssetDecision,
  ShadowExecutableOrder, ShadowDeferredBuyNeed, NormalizedInput,
}
use portfolio_rebalancer.Application.ShadowPlan.Orders.{
  get_required, to_executable_order, orders_of, round_sale, defer_purchase, Phase, sell_phase,
}
use portfolio_rebalancer.Application.ShadowPlan.Plan.{asset_decision, is_some, phase_of}
use portfolio_rebalancer.Application.ShadowPlan.Rounds.{
  map_ok-origin, round_sale-sell, orders_of-All, defer_purchase-waits,
}
use portfolio_rebalancer.Application.ShadowPlan.Spending.{buy_phase-IsPurchase}

abbrev pub cost : List ShadowExecutableOrder → ℤ
cost orders = sum_ℤ (λ (o : ShadowExecutableOrder). o.notional_minor) orders

-- A first phase: only sales, and no purchase is executed yet.
pub record IsSale (orders : List ShadowExecutableOrder) (deferred : List ShadowDeferredBuyNeed)
    : Type 0 where
  pub sides : All (λ (o : ShadowExecutableOrder). o.side ≡ sell) orders
  pub waits : All (λ (d : ShadowDeferredBuyNeed). d.executable_notional_minor ≡ pos 0) deferred

-- A second phase: only purchases, for at most the spendable cash.
pub record IsSpending (spendable : ℤ) (orders : List ShadowExecutableOrder) : Type 0 where
  pub sides : All (λ (o : ShadowExecutableOrder). o.side ≡ buy) orders
  pub within : cost orders ≤ℤ spendable

sell_phase-IsSale :
    (minimum : ℤ) (sells buys : List ShadowInstrumentDecision) {phase : Phase}
    → sell_phase minimum sells buys ≡ ok phase
    → IsSale phase.orders phase.deferred
unfolding sell_phase to_executable_order
sell_phase-IsSale minimum sells buys h =
    let (items, sold, h1) = >>=-eq-ok (map_ok (round_sale minimum) sells) _ h in
    let (deferred, waiting, last) = >>=-eq-ok (map_ok (defer_purchase minimum) buys) _ h1 in
    let good : IsSale (orders_of items) deferred = record {
      sides =
          orders_of-All (λ o. o.side ≡ sell) items
            (map_ok-origin (round_sale minimum) (λ item. item.rounded.side ≡ sell) sells
              (round_sale-sell minimum) sold);
      waits =
          map_ok-origin (defer_purchase minimum) (λ d. d.executable_notional_minor ≡ pos 0) buys
            (defer_purchase-waits minimum) waiting;
    } in
    subst (λ (p : Phase). IsSale p.orders p.deferred) (ok-injective last) good

-- The phase of a plan, by whether there is something to sell.
pub record IsPhase (spendable : ℤ) (selling : Bool) (orders : List ShadowExecutableOrder)
    (deferred : List ShadowDeferredBuyNeed) : Type 0 where
  pub sale : selling ≡ true → IsSale orders deferred
  pub purchase : selling ≡ false → pos 0 ≤ℤ spendable → IsSpending spendable orders

pub phase_of-IsPhase :
    (n : NormalizedInput) (assets : List ShadowAssetDecision)
    (sells buys : List ShadowInstrumentDecision) {phase : Phase}
    → Distinct (map (λ asset. asset.id) (filter (λ asset. not (is_cash asset.kind)) assets))
    → phase_of n assets sells buys ≡ ok phase
    → IsPhase n.spendable_cash_minor (is_some sells) phase.orders phase.deferred
phase_of-IsPhase n assets [] [] d h =
    let nothing : IsPhase n.spendable_cash_minor false [] [] = record {
      sale = λ e. cc;
      purchase = λ e p. record {
        sides = tt;
        within = rw (sum_ℤ-nil (λ (o : ShadowExecutableOrder). o.notional_minor)) p;
      };
    } in
    subst (λ (p : Phase). IsPhase n.spendable_cash_minor false p.orders p.deferred) (ok-injective h)
      nothing
phase_of-IsPhase n assets [] (need ∷ needs) d h =
    let p =
      buy_phase-IsPurchase n.minimum_order_minor n.spendable_cash_minor assets (need ∷ needs) d h in
    record { sale = λ e. cc; purchase = λ e q. record { sides = p.sides; within = p.within } }
phase_of-IsPhase n assets (need ∷ needs) buys d h = record {
  sale = λ e. sell_phase-IsSale n.minimum_order_minor (need ∷ needs) buys h;
  purchase = λ e q. cc;
}

-- Different identifiers stay different in a part of an array.
contains-filter :
    {A : Type 0} (key : A → Text) (p : A → Bool) (xs : List A) (k : Text)
    → contains (map key xs) k ≡ false
    → contains (map key (filter p xs)) k ≡ false
unfolding contains
contains-filter key p [] k h = refl
contains-filter key p (x ∷ xs) k h = ground (arith, contains-filter key p xs k)

pub Distinct-filter :
    {A : Type 0} (key : A → Text) (p : A → Bool) (xs : List A)
    → Distinct (map key xs)
    → Distinct (map key (filter p xs))
Distinct-filter key p [] d = tt
Distinct-filter key p (x ∷ xs) d = elim (Bool-cases (p x)) [
  | inl kept ↦ rw kept (contains-filter key p xs (key x) d.0, Distinct-filter key p xs d.1)
  | inr left_out ↦ rw left_out (Distinct-filter key p xs d.1)
]

pub any-filter : {A : Type 0} (p : A → Bool) (xs : List A) → is_some (filter p xs) ≡ any p xs
any-filter p [] = refl
any-filter p (x ∷ xs) = ground (arith, any-filter p xs)

pub decision_ids :
    (assets : List ShadowPlanAssetClassInput) (ds : List RebalanceAssetDecision)
    {found : List ShadowAssetDecision}
    → map_ok (asset_decision assets) ds ≡ ok found
    → map (λ (a : ShadowAssetDecision). a.id) found
      ≡ map (λ (d : RebalanceAssetDecision). d.input.id) ds
unfolding map_ok asset_decision
decision_ids assets [] h =
    subst (λ f. map (λ (a : ShadowAssetDecision). a.id) f ≡ []) (ok-injective h) refl
decision_ids assets (d ∷ ds) h =
    let (first, here, rest) = >>=-eq-ok (asset_decision assets d) _ h in
    let (asset, found, made) =
      >>=-eq-ok (get_required d.input.id (find (λ asset. text_eq asset.id d.input.id) assets)) _
        here in
    let (others, behind, last) = >>=-eq-ok (map_ok (asset_decision assets) ds) _ rest in
    let same : d.input.id ≡ first.id = ap (λ (a : ShadowAssetDecision). a.id) (ok-injective made) in
    subst
      (λ f.
        map (λ (a : ShadowAssetDecision). a.id) f
        ≡ d.input.id ∷ map (λ (x : RebalanceAssetDecision). x.input.id) ds)
      (ok-injective last)
      (ap (λ i. i ∷ map (λ (a : ShadowAssetDecision). a.id) others) (sym same)
        ∙ ap (λ is. d.input.id ∷ is) (decision_ids assets ds behind))
