-- ===== src/Domain/Rebalance/Targets.antt =====
-- `calculateRebalanceTargets`: when it returns, and what it then
-- returns.
use portfolio_rebalancer.Prelude.{
  ℤ, ◌-ℤ◌, sum_ℤ, sum_ℤ-map, Text, Distinct, map_get, map_of, map_get-from, List, [], All-All, map,
  map-map_lem, All, All-map, All-to_map, ok, some, ok-injective, >>=-eq-ok, map_ok-All, ◌≡◌, refl,
  sym, ◌∙◌, ◌↔◌,
}
use portfolio_rebalancer.Domain.Allocation.{calculate_allocation_snapshot}
use portfolio_rebalancer.Domain.Allocation.Valid.{
  snapshot_of, snapshot_ok→IsEvaluable, IsEvaluable→snapshot_ok,
}
use portfolio_rebalancer.Domain.Shares.{Provisional, bonus_ids, award}
use portfolio_rebalancer.Domain.Rebalance.{
  RebalanceReturnPolicy, band_edge, target, RebalanceAssetInput, RebalanceAssetDecision,
  RebalanceTargetResult, classify_band, desired_band_edge_value, provisional_share,
  allocate_exact_target_values, get_required_map_value, to_allocation_input, decide,
  target_values_for, validate_rebalance_assets, calculate_rebalance_targets,
}
use portfolio_rebalancer.Domain.Rebalance.Valid.{
  IsRebalanceable, IsWellFormed-iff, IsRebalanceable→IsEvaluable, IsEvaluable→IsRebalanceable,
}

abbrev pub total_of : List RebalanceAssetInput → ℤ
total_of inputs = sum_ℤ (λ input. input.value_minor) inputs

abbrev pub shares_of : List RebalanceAssetInput → List Provisional
shares_of inputs = map (provisional_share (total_of inputs)) inputs

abbrev pub bonus_of : List RebalanceAssetInput → List Text
bonus_of inputs =
    bonus_ids (total_of inputs -ℤ sum_ℤ (λ (s : Provisional). s.value) (shares_of inputs))
      (shares_of inputs)

-- The desired value of one asset, without the map that carries it.
abbrev pub desired_of : RebalanceReturnPolicy → List RebalanceAssetInput → RebalanceAssetInput → ℤ
desired_of target inputs input = award (bonus_of inputs) (provisional_share (total_of inputs) input)
desired_of band_edge inputs input =
    desired_band_edge_value input (classify_band input (total_of inputs)) (total_of inputs)

abbrev pub decision_of :
    RebalanceReturnPolicy → List RebalanceAssetInput → RebalanceAssetInput → RebalanceAssetDecision
decision_of policy inputs input = record {
  input = input;
  reason = classify_band input (total_of inputs);
  desired_value_minor = desired_of policy inputs input;
  delta_minor = desired_of policy inputs input -ℤ input.value_minor;
}

abbrev pub result_of : RebalanceReturnPolicy → List RebalanceAssetInput → RebalanceTargetResult
result_of policy inputs = record {
  policy = policy;
  total_value_minor = total_of inputs;
  decisions = map (decision_of policy inputs) inputs;
}

pub shares-Distinct :
    (inputs : List RebalanceAssetInput)
    → Distinct (map (λ input. input.id) inputs)
    → Distinct (map (λ s. s.id) (shares_of inputs))
unfolding provisional_share
shares-Distinct inputs d =
    rw (map-map_lem (λ (s : Provisional). s.id) (provisional_share (total_of inputs)) inputs) d

target_values_get :
    (inputs : List RebalanceAssetInput)
    → Distinct (map (λ input. input.id) inputs)
    → All
        (λ input.
          map_get input.id (allocate_exact_target_values inputs (total_of inputs))
          ≡ some (desired_of target inputs input))
        inputs
unfolding allocate_exact_target_values provisional_share map_of
target_values_get inputs d =
    let entry = λ (s : Provisional). (let e : Text × ℤ = (s.id, award (bonus_of inputs) s) in e) in
    let keys = map-map_lem (λ (e : Text × ℤ). e.0) entry (shares_of inputs) in
    All-to_map _ (provisional_share (total_of inputs)) inputs (
      All-to_map _ entry (shares_of inputs)
        (map_get-from [] (map entry (shares_of inputs)) (rw keys (shares-Distinct inputs d))))

decide-ok :
    (policy : RebalanceReturnPolicy) (inputs : List RebalanceAssetInput)
    → Distinct (map (λ input. input.id) inputs)
    → All
        (λ input.
          decide policy (target_values_for policy inputs (total_of inputs)) (total_of inputs) input
          ≡ ok (decision_of policy inputs input))
        inputs
unfolding decide target_values_for get_required_map_value
decide-ok target inputs d = All-map (λ input e. rw e refl) inputs (target_values_get inputs d)
decide-ok band_edge inputs d = All-All (λ input. refl) inputs

snapshot-total :
    (inputs : List RebalanceAssetInput)
    → (snapshot_of (map to_allocation_input inputs)).total_value_minor ≡ total_of inputs
snapshot-total inputs = sum_ℤ-map (λ item. item.value_minor) to_allocation_input inputs

-- On a rebalanceable portfolio the call returns, and the map of the `TARGET` policy drops out.
pub rebalanceable-ok :
    (inputs : List RebalanceAssetInput) (policy : RebalanceReturnPolicy)
    → IsRebalanceable inputs
    → calculate_rebalance_targets inputs policy ≡ ok (result_of policy inputs)
unfolding calculate_rebalance_targets
rebalanceable-ok inputs policy v =
    rw
      (
        (IsWellFormed-iff inputs).1 v.well_formed,
        IsEvaluable→snapshot_ok _ (IsRebalanceable→IsEvaluable inputs v),
        snapshot-total inputs,
        map_ok-All _ _ inputs (decide-ok policy inputs v.well_formed.distinct),
      )
      refl

pub ok→IsRebalanceable :
    (inputs : List RebalanceAssetInput) (policy : RebalanceReturnPolicy) {r : RebalanceTargetResult}
    → calculate_rebalance_targets inputs policy ≡ ok r
    → IsRebalanceable inputs
unfolding calculate_rebalance_targets
ok→IsRebalanceable inputs policy h =
    let (u, first, rest) = >>=-eq-ok (validate_rebalance_assets inputs) _ h in
    let (s, second, last) =
      >>=-eq-ok (calculate_allocation_snapshot (map to_allocation_input inputs)) _ rest in
    IsEvaluable→IsRebalanceable inputs ((IsWellFormed-iff inputs).0 first)
      (snapshot_ok→IsEvaluable _ second).0

-- Under either policy the calculation returns exactly when the portfolio is rebalanceable: it has an
-- asset, its identifiers are not blank and not repeated, no value is negative, every target lies in
-- its band within 0 and 10000 basis points, the targets add up to 10000, and the total is positive.
pub returns_iff :
    (inputs : List RebalanceAssetInput) (policy : RebalanceReturnPolicy)
    → ((r : RebalanceTargetResult) × (calculate_rebalance_targets inputs policy ≡ ok r))
      ↔ IsRebalanceable inputs
returns_iff inputs policy = (
  λ (r, h). ok→IsRebalanceable inputs policy h,
  λ v. (result_of policy inputs, rebalanceable-ok inputs policy v),
)

pub result-eq :
    (inputs : List RebalanceAssetInput) (policy : RebalanceReturnPolicy) {r : RebalanceTargetResult}
    → calculate_rebalance_targets inputs policy ≡ ok r
    → r ≡ result_of policy inputs
result-eq inputs policy h =
    ok-injective (sym h ∙ rebalanceable-ok inputs policy (ok→IsRebalanceable inputs policy h))
