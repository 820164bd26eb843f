-- ===== src/Domain/Rebalance/Exact.antt =====
-- The `TARGET` policy divides the whole portfolio, to the last unit.
use portfolio_rebalancer.Prelude.{
  ℕ, ◌+◌, ◌-◌, ◌*◌, ◌/◌, ◌≤◌, ℤ, pos, pos_part, ◌+ℤ◌, ◌-ℤ◌, ◌*ℤ◌, ◌/ℤ◌, ◌≤ℤ◌, eq-pos, sum_ℤ,
  sum_ℤ-pos, sum_ℤ-map, sum_ℤ-sub, sum, sum_mul, floors-share, List, length, length-map, All,
  All-map, All-of_map, All-All, ok, arith, int_laws, ◌≡◌, refl, sym, ap, ◌∙◌,
}
use portfolio_rebalancer.Domain.{basis_point_scale}
use portfolio_rebalancer.Domain.Shares.{bonus_ids, award}
use portfolio_rebalancer.Domain.Shares.Exact.{sum-award, award_near}
use portfolio_rebalancer.Domain.Rebalance.{
  target, RebalanceAssetInput, RebalanceTargetResult, provisional_share,
  calculate_rebalance_targets,
}
use portfolio_rebalancer.Domain.Rebalance.Valid.{IsRebalanceable}
use portfolio_rebalancer.Domain.Rebalance.Targets.{
  total_of, shares_of, bonus_of, desired_of, decision_of, result-eq, ok→IsRebalanceable,
  shares-Distinct,
}

abbrev goal : RebalanceAssetInput → ℕ
goal input = pos_part input.target_basis_points

module _ (inputs : List RebalanceAssetInput) (v : IsRebalanceable inputs) where
  abbrev whole : ℕ
  whole = pos_part (total_of inputs)

  abbrev share : RebalanceAssetInput → ℕ
  share input = whole * goal input / 10000

  total-eq : total_of inputs ≡ pos whole
  total-eq = eq-pos (total_of inputs) (let p = v.positive in ground (arith, p))

  goals-eq : All (λ input. input.target_basis_points ≡ pos (goal input)) inputs
  goals-eq =
      All-map (λ input b. eq-pos input.target_basis_points (omega arith)) inputs
        v.well_formed.banded

  goals-total : sum goal inputs ≡ 10000
  goals-total =
      let e = sum_ℤ-pos (λ input. input.target_basis_points) goal inputs goals-eq in
      ground (arith, e, v.full_target)

  share-eq :
      (input : RebalanceAssetInput)
      → input.target_basis_points ≡ pos (goal input)
      → (provisional_share (total_of inputs) input).value ≡ pos (share input)
  unfolding provisional_share ◌*ℤ◌ ◌/ℤ◌
  share-eq input e = rw (total-eq, e) refl

  shares-total : sum_ℤ (λ s. s.value) (shares_of inputs) ≡ pos (sum share inputs)
  shares-total =
      sum_ℤ-map (λ s. s.value) (provisional_share (total_of inputs)) inputs
      ∙ sum_ℤ-pos (λ input. (provisional_share (total_of inputs) input).value) share inputs
          (All-map share-eq inputs goals-eq)

  shares_bound : (sum share inputs ≤ whole) × (whole ≤ sum share inputs + length inputs)
  shares_bound =
      floors-share 10000 (omega arith) (λ input. whole * goal input) whole inputs
        (sum_mul whole goal inputs ∙ ap (λ n. whole * n) goals-total)

  remaining-eq :
      total_of inputs -ℤ sum_ℤ (λ s. s.value) (shares_of inputs) ≡ pos (whole - sum share inputs)
  unfolding ◌-ℤ◌
  remaining-eq = rw (shares-total, total-eq) (ground (arith, shares_bound))

  bonus-eq : bonus_of inputs ≡ bonus_ids (pos (whole - sum share inputs)) (shares_of inputs)
  bonus-eq = ap (λ k. bonus_ids k (shares_of inputs)) remaining-eq

  -- The desired values add up to the total.
  desired-total : sum_ℤ (desired_of target inputs) inputs ≡ total_of inputs
  unfolding ◌+ℤ◌
  desired-total =
      sym (sum_ℤ-map (award (bonus_of inputs)) (provisional_share (total_of inputs)) inputs)
      ∙ ap (λ b. sum_ℤ (award b) (shares_of inputs)) bonus-eq
      ∙ sum-award (whole - sum share inputs) (shares_of inputs)
          (rw (length-map (provisional_share (total_of inputs)) inputs)
            (omega (arith, shares_bound)))
          (shares-Distinct inputs v.well_formed.distinct)
      ∙ (rw (shares-total, total-eq) (ap pos (omega (arith, shares_bound))))

-- An asset's share of the total, rounded down.
abbrev pub floor_share : ℤ → RebalanceAssetInput → ℤ
floor_share total input = total *ℤ input.target_basis_points /ℤ basis_point_scale

-- The `TARGET` policy, whenever it returns, gives desired values that add up to exactly the value of
-- the portfolio, so that the trades add up to 0; and each desired value is the asset's share of the
-- total rounded down, or one unit more.
pub target_exact :
    (inputs : List RebalanceAssetInput) {r : RebalanceTargetResult}
    → calculate_rebalance_targets inputs target ≡ ok r
    → (r.total_value_minor ≡ sum_ℤ (λ input. input.value_minor) inputs)
      × (sum_ℤ (λ d. d.desired_value_minor) r.decisions ≡ r.total_value_minor)
      × (sum_ℤ (λ d. d.delta_minor) r.decisions ≡ pos 0)
      × All
          (λ d.
            (floor_share r.total_value_minor d.input ≤ℤ d.desired_value_minor)
            × (d.desired_value_minor ≤ℤ floor_share r.total_value_minor d.input +ℤ pos 1))
          r.decisions
unfolding provisional_share
target_exact inputs {r} h =
    let v = ok→IsRebalanceable inputs target h in
    let total = desired-total inputs v in
    rw (result-eq inputs target h) (
      refl,
      sum_ℤ-map (λ d. d.desired_value_minor) (decision_of target inputs) inputs ∙ total,
      sum_ℤ-map (λ d. d.delta_minor) (decision_of target inputs) inputs
          ∙ sum_ℤ-sub (desired_of target inputs) (λ input. input.value_minor) inputs
          ∙ (rw total (omega int_laws)),
      All-of_map _ (decision_of target inputs) inputs (
          All-All
            (λ input. award_near (bonus_of inputs) (provisional_share (total_of inputs) input))
            inputs),
    )
