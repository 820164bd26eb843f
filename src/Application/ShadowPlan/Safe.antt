-- ===== src/Application/ShadowPlan/Safe.antt =====
-- What every plan promises about its phases.
use portfolio_rebalancer.Prelude.{
  ℤ, pos, ◌≤ℤ◌, ltb_ℤ, leb_ℤ, eq_ℤ, sum_ℤ, sum-sort, All-sort, sort, Distinct, Bool, true, false,
  not, ◌||◌, Option, none, some, List, [], map, map-map_lem, filter, any, length, ◌==◌,
  if◌then◌else◌, Result, ok, err, >>=-eq-ok, >>-eq-ok, ok-injective, map_ok, arith, ◌≡◌, refl, sym,
  ap, subst, ◌∙◌,
}
use portfolio_rebalancer.Domain.{basis_point_scale}
use portfolio_rebalancer.Domain.OrderRounding.{buy, sell}
use portfolio_rebalancer.Domain.Allocation.{has_repeats}
use portfolio_rebalancer.Domain.Rebalance.{
  RebalanceAssetInput, RebalanceAssetDecision, RebalanceTargetResult, calculate_rebalance_targets,
}
use portfolio_rebalancer.Domain.Rebalance.Targets.{decision_of, result-eq, ok→IsRebalanceable}
use portfolio_rebalancer.Application.ShadowPlan.{
  ShadowPlanStatus, no_action, planned, blocked, ShadowPlanReasonCode, calculation_input_invalid,
  is_cash, CreateShadowPlanInput, ShadowPlanAssetClassInput, ShadowAssetDecision,
  ShadowExecutableOrder, ShadowDeferredBuyNeed, ShadowPlanResult, NormalizedInput,
}
use portfolio_rebalancer.Application.ShadowPlan.Normalize.{
  has_missing, has_mismatch, required_cash, is_unsupported, is_bad_id, by_id, cash_class,
  check_classes, validate_and_normalize_input,
}
use portfolio_rebalancer.Application.ShadowPlan.Orders.{
  PlanStop, blocked_by, thrown, missing_value, attempt, is_sale, is_purchase,
}
use portfolio_rebalancer.Application.ShadowPlan.Plan.{
  PlanContent, create_result, blocked_plan, rebalance_input, asset_decision, instruments_of,
  project_after_orders, is_some, compare_orders, compare_deferred_buy_needs, phase_of, plan_content,
  plan_or_blocked, plan_normalized, create_shadow_rebalance_plan,
}
use portfolio_rebalancer.Application.ShadowPlan.Rounds.{attempt-eq-ok}
use portfolio_rebalancer.Application.ShadowPlan.Phases.{
  IsSale, IsSpending, IsPhase, phase_of-IsPhase, Distinct-filter, any-filter, decision_ids,
}

abbrev pub sells_of : List ShadowAssetDecision → Bool
sells_of assets = any is_sale (instruments_of assets)

-- A plan of one phase.
abbrev IsPlanned : NormalizedInput → PlanContent → Type 0
IsPlanned n content =
    IsPhase n.spendable_cash_minor (sells_of content.asset_decisions) content.executable_orders
      content.deferred_buy_needs

decisions-Distinct :
    (n : NormalizedInput) {r : RebalanceTargetResult} {assets : List ShadowAssetDecision}
    → calculate_rebalance_targets (map rebalance_input n.asset_classes) n.return_policy ≡ ok r
    → map_ok (asset_decision n.asset_classes) r.decisions ≡ ok assets
    → Distinct (map (λ (a : ShadowAssetDecision). a.id) assets)
decisions-Distinct n {r} {assets} h k =
    let inputs = map rebalance_input n.asset_classes in
    let decided =
      ap (λ (x : RebalanceTargetResult). x.decisions) (result-eq inputs n.return_policy h) in
    let ids : map (λ (d : RebalanceAssetDecision). d.input.id) r.decisions
        ≡ map (λ (i : RebalanceAssetInput). i.id) inputs =
      ap (λ ds. map (λ (d : RebalanceAssetDecision). d.input.id) ds) decided
      ∙ map-map_lem (λ (d : RebalanceAssetDecision). d.input.id)
          (decision_of n.return_policy inputs) inputs in
    let well = (ok→IsRebalanceable inputs n.return_policy h).well_formed in
    subst (λ is. Distinct is) (sym (decision_ids n.asset_classes r.decisions k ∙ ids)) well.distinct

sorted-IsPhase :
    (spendable : ℤ) (selling : Bool) (orders : List ShadowExecutableOrder)
    (deferred : List ShadowDeferredBuyNeed)
    → IsPhase spendable selling orders deferred
    → IsPhase spendable selling
        (sort compare_orders orders)
        (sort compare_deferred_buy_needs deferred)
sorted-IsPhase spendable selling orders deferred p = record {
  sale = λ e.
      let s = p.sale e in
      record {
        sides = All-sort compare_orders (λ o. o.side ≡ sell) orders s.sides;
        waits =
            All-sort compare_deferred_buy_needs (λ d. d.executable_notional_minor ≡ pos 0) deferred
              s.waits;
      };
  purchase = λ e q.
      let s = p.purchase e q in
      record {
        sides = All-sort compare_orders (λ o. o.side ≡ buy) orders s.sides;
        within =
            rw (sum-sort compare_orders (λ (o : ShadowExecutableOrder). o.notional_minor) orders)
              s.within;
      };
}

plan_content-IsPlanned :
    (n : NormalizedInput) {content : PlanContent}
    → plan_content n ≡ ok content
    → IsPlanned n content
unfolding plan_content
plan_content-IsPlanned n h =
    let (r, targets, h1) =
      >>=-eq-ok
        (attempt
          (calculate_rebalance_targets (map rebalance_input n.asset_classes) n.return_policy))
        _ h in
    let (assets, decided, h2) =
      >>=-eq-ok (map_ok (asset_decision n.asset_classes) r.decisions) _ h1 in
    let needs = instruments_of assets in
    let (priced, h3) = >>-eq-ok (any (λ need. leb_ℤ need.price_minor (pos 0)) needs) _ h2 in
    let (phase, made, h4) =
      >>=-eq-ok (phase_of n assets (filter is_sale needs) (filter is_purchase needs)) _ h3 in
    let orders = sort compare_orders phase.orders in
    let (projected, p, last) =
      >>=-eq-ok (project_after_orders assets orders n.cash_asset_class_id) _ h4 in
    let ids =
      decisions-Distinct n
        (attempt-eq-ok
          (calculate_rebalance_targets (map rebalance_input n.asset_classes) n.return_policy)
          targets)
        decided in
    let distinct =
      Distinct-filter (λ (a : ShadowAssetDecision). a.id) (λ a. not (is_cash a.kind)) assets ids in
    let one =
      phase_of-IsPhase n assets (filter is_sale needs) (filter is_purchase needs) distinct made in
    let one' =
      subst (λ b. IsPhase n.spendable_cash_minor b phase.orders phase.deferred)
        (any-filter is_sale needs) one in
    subst (IsPlanned n) (ok-injective last)
      (sorted-IsPhase n.spendable_cash_minor (any is_sale needs) phase.orders phase.deferred one')

-- The cash of a normalized input.
record IsNormalized (input : CreateShadowPlanInput) (n : NormalizedInput) : Type 0 where
  given : input.spendable_cash_minor ≡ some n.spendable_cash_minor
  positive : pos 0 ≤ℤ n.spendable_cash_minor

some-eq : {a b : ℤ} → ◌≡◌ {A = Option ℤ} (some a) (some b) → a ≡ b
some-eq h = cc

required_cash-eq-ok : (o : Option ℤ) {a : ℤ} → required_cash o ≡ ok a → o ≡ some a
required_cash-eq-ok none h = cc
required_cash-eq-ok (some b) h = cc

spendable_positive :
    (m s : ℤ) → (ltb_ℤ m (pos 0) || ltb_ℤ s (pos 0) || ltb_ℤ m s) ≡ false → pos 0 ≤ℤ s
spendable_positive m s h = ground arith

normalize-IsNormalized :
    (input : CreateShadowPlanInput) {n : NormalizedInput}
    → validate_and_normalize_input input ≡ ok n
    → IsNormalized input n
unfolding validate_and_normalize_input
normalize-IsNormalized input h =
    let (_, h1) = >>-eq-ok (has_missing input.identity) _ h in
    let (_, h2) = >>-eq-ok (has_mismatch input.identity) _ h1 in
    let (managed, m, h3) = >>=-eq-ok (required_cash input.managed_cash_minor) _ h2 in
    let (spendable, s, h4) = >>=-eq-ok (required_cash input.spendable_cash_minor) _ h3 in
    let (cash_good, h5) =
      >>-eq-ok (ltb_ℤ managed (pos 0) || ltb_ℤ spendable (pos 0) || ltb_ℤ managed spendable) _ h4 in
    let (_, h6) = >>-eq-ok (is_unsupported input.order_prerequisites) _ h5 in
    let (_, h7) =
      >>-eq-ok (ltb_ℤ input.minimum_order_minor (pos 0) || length input.asset_classes == 0) _ h6 in
    let sorted = sort by_id input.asset_classes in
    let (_, h8) = >>-eq-ok (any is_bad_id sorted) _ h7 in
    let (_, h9) = >>-eq-ok (has_repeats (map (λ asset. asset.id) sorted)) _ h8 in
    let (cash_asset, _, h10) =
      >>=-eq-ok (cash_class managed (filter (λ asset. is_cash asset.kind) sorted)) _ h9 in
    let (classes, _, h11) = >>=-eq-ok (check_classes [] sorted) _ h10 in
    let (_, h12) =
      >>-eq-ok
        (leb_ℤ (sum_ℤ (λ (asset : ShadowPlanAssetClassInput). asset.current_value_minor) classes)
          (pos 0))
        _ h11 in
    let (_, last) =
      >>-eq-ok
        (not (
          eq_ℤ (sum_ℤ (λ (asset : ShadowPlanAssetClassInput). asset.target_basis_points) classes)
            basis_point_scale))
        _ h12 in
    let same : spendable ≡ _ =
      ap (λ (n : NormalizedInput). n.spendable_cash_minor) (ok-injective last) in
    let p = spendable_positive managed spendable cash_good in
    record {
      given = required_cash-eq-ok input.spendable_cash_minor s ∙ ap (λ x. some x) same;
      positive = subst (λ x. pos 0 ≤ℤ x) same p;
    }

abbrev pub is_blocked : ShadowPlanStatus → Bool
is_blocked blocked = true
is_blocked planned = false
is_blocked no_action = false

-- The phases of a plan and what they cost.
pub record IsOnePhase (input : CreateShadowPlanInput) (r : ShadowPlanResult) : Type 0 where
  pub stopped :
      is_blocked r.status ≡ true → (r.executable_orders ≡ []) × (r.deferred_buy_needs ≡ [])
  pub sale : sells_of r.asset_decisions ≡ true → IsSale r.executable_orders r.deferred_buy_needs
  pub purchase :
      (spendable : ℤ)
      → input.spendable_cash_minor ≡ some spendable
      → is_blocked r.status ≡ false
      → sells_of r.asset_decisions ≡ false
      → IsSpending spendable r.executable_orders

blocked-IsOnePhase :
    (input : CreateShadowPlanInput) (reason : ShadowPlanReasonCode)
    → IsOnePhase input (blocked_plan input reason)
unfolding blocked_plan create_result instruments_of
blocked-IsOnePhase input reason = record {
  stopped = λ e. (refl, refl);
  sale = λ e. cc;
  purchase = λ spendable given e. cc;
}

not_blocked : (b : Bool) → is_blocked (if b then planned else no_action) ≡ false
not_blocked true = refl
not_blocked false = refl

plan_status :
    (n : NormalizedInput) {content : PlanContent}
    → plan_content n ≡ ok content
    → is_blocked content.status ≡ false
unfolding plan_content
plan_status n h =
    let (r, targets, h1) =
      >>=-eq-ok
        (attempt
          (calculate_rebalance_targets (map rebalance_input n.asset_classes) n.return_policy))
        _ h in
    let (assets, decided, h2) =
      >>=-eq-ok (map_ok (asset_decision n.asset_classes) r.decisions) _ h1 in
    let needs = instruments_of assets in
    let (priced, h3) = >>-eq-ok (any (λ need. leb_ℤ need.price_minor (pos 0)) needs) _ h2 in
    let (phase, made, h4) =
      >>=-eq-ok (phase_of n assets (filter is_sale needs) (filter is_purchase needs)) _ h3 in
    let orders = sort compare_orders phase.orders in
    let (projected, p, last) =
      >>=-eq-ok (project_after_orders assets orders n.cash_asset_class_id) _ h4 in
    subst (λ (c : PlanContent). is_blocked c.status ≡ false) (ok-injective last)
      (not_blocked (is_some orders))

content-IsOnePhase :
    (input : CreateShadowPlanInput) (n : NormalizedInput) (call : Result PlanStop PlanContent)
    → IsNormalized input n
    → ((content : PlanContent)
        → call ≡ ok content
        → IsPlanned n content × (is_blocked content.status ≡ false))
    → IsOnePhase input (plan_or_blocked input call)
unfolding create_result
content-IsOnePhase input n (err (blocked_by reason)) v k = blocked-IsOnePhase input reason
content-IsOnePhase input n (err (thrown error)) v k =
    blocked-IsOnePhase input calculation_input_invalid
content-IsOnePhase input n (err (missing_value key)) v k =
    blocked-IsOnePhase input calculation_input_invalid
content-IsOnePhase input n (ok content) v k =
    let (p, status) = k content refl in
    record {
      stopped = λ e. cc;
      sale = p.sale;
      purchase = λ spendable given e none_sold.
          let same : n.spendable_cash_minor ≡ spendable = some-eq (sym (v.given) ∙ given) in
          subst (λ c. IsSpending c content.executable_orders) same
            (p.purchase none_sold v.positive);
    }

normalized-IsOnePhase :
    (input : CreateShadowPlanInput) (call : Result ShadowPlanReasonCode NormalizedInput)
    → ((n : NormalizedInput) → call ≡ ok n → IsNormalized input n)
    → IsOnePhase input (plan_normalized input call)
normalized-IsOnePhase input (err reason) k = blocked-IsOnePhase input reason
normalized-IsOnePhase input (ok n) k =
    content-IsOnePhase input n (plan_content n) (k n refl)
      (λ content h. (plan_content-IsPlanned n h, plan_status n h))

-- A plan never mixes sales and purchases and never spends the proceeds of its sales: a blocked plan has
-- no orders and no deferred purchases; if an instrument is to be sold, every order is a sale and no
-- deferred purchase is executed; otherwise every order is a purchase, and all of them together cost at
-- most the spendable cash of the input.
pub plan-IsOnePhase :
    (input : CreateShadowPlanInput) → IsOnePhase input (create_shadow_rebalance_plan input)
unfolding create_shadow_rebalance_plan
plan-IsOnePhase input =
    normalized-IsOnePhase input (validate_and_normalize_input input)
      (λ n h. normalize-IsNormalized input h)
