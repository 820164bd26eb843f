-- ===== src/Domain/Allocation/Weights.antt =====
-- What the weights of an evaluated portfolio add up to.
use portfolio_rebalancer.Prelude.{
  ℕ, ◌+◌, ◌*◌, ◌/◌, ◌≤◌, ◌<◌, ◌≡◌, refl, ap, ◌∙◌, arith, List, map, length, All, All-map, All-zip,
  All-of_map, ℤ, pos, pos_part, ◌+ℤ◌, ◌-ℤ◌, ◌*ℤ◌, ◌/ℤ◌, ◌≤ℤ◌, ◌<ℤ◌, eq-pos, sum_ℤ, sum, sum_ℤ-pos,
  sum_ℤ-map, sum_ℤ-sub, sum_mul, floors-share, floors-share_strict, All-le-sum, ok,
}
use portfolio_rebalancer.Domain.{basis_point_scale}
use portfolio_rebalancer.Domain.Allocation.{
  AllocationInput, AllocationSnapshot, to_result, calculate_allocation_snapshot,
}
use portfolio_rebalancer.Domain.Allocation.Valid.{IsEvaluable, snapshot_ok→IsEvaluable}

abbrev amount : AllocationInput → ℕ
amount item = pos_part item.value_minor

share-le : (a t : ℕ) → 0 < t → a ≤ t → 10000 * a / t ≤ 10000
share-le a t h k = grind arith

module _ (inputs : List AllocationInput) (v : IsEvaluable inputs) where
  amounts-eq : All (λ item. item.value_minor ≡ pos (amount item)) inputs
  amounts-eq = All-map (λ item h. eq-pos item.value_minor h.0) inputs v.nonnegative

  total-eq : sum_ℤ (λ item. item.value_minor) inputs ≡ pos (sum amount inputs)
  total-eq = sum_ℤ-pos (λ item. item.value_minor) amount inputs amounts-eq

  total_pos : 0 < sum amount inputs
  total_pos = ground (arith, v.positive, total-eq)

  abbrev total : ℤ
  total = sum_ℤ (λ item. item.value_minor) inputs

  abbrev weight : AllocationInput → ℕ
  weight item = 10000 * amount item / sum amount inputs

  weight-eq :
      (item : AllocationInput)
      → item.value_minor ≡ pos (amount item)
      → item.value_minor *ℤ basis_point_scale /ℤ total ≡ pos (weight item)
  unfolding ◌*ℤ◌ ◌/ℤ◌
  weight-eq item e = rw (total-eq, e) (ap (λ n. pos (n / sum amount inputs)) (omega arith))

  weights-eq :
      sum_ℤ (λ r. r.current_basis_points) (map (to_result total) inputs) ≡ pos (sum weight inputs)
  unfolding to_result
  weights-eq =
      sum_ℤ-map (λ r. r.current_basis_points) (to_result total) inputs
      ∙ sum_ℤ-pos (λ item. item.value_minor *ℤ basis_point_scale /ℤ total) weight inputs
          (All-map weight-eq inputs amounts-eq)

  weights_share : (sum weight inputs ≤ 10000) × (10000 < sum weight inputs + length inputs)
  weights_share =
      let scaled = sum_mul 10000 amount inputs in
      (
        (floors-share (sum amount inputs) total_pos (λ item. 10000 * amount item) 10000 inputs
            scaled).0,
        floors-share_strict (sum amount inputs) total_pos (λ item. 10000 * amount item) 10000 inputs
            scaled v.nonempty,
      )

  weight-le : All (λ item. weight item ≤ 10000) inputs
  weight-le =
      All-map (λ item h. share-le (amount item) (sum amount inputs) total_pos h) inputs
        (All-le-sum amount inputs)

  weight_range :
      (item : AllocationInput)
      → item.value_minor ≡ pos (amount item)
      → weight item ≤ 10000
      → (pos 0 ≤ℤ (to_result total item).current_basis_points)
        × ((to_result total item).current_basis_points ≤ℤ basis_point_scale)
  unfolding to_result
  weight_range item e h = ground (arith, weight-eq item e)

  drifts-eq :
      sum_ℤ (λ r. r.drift_basis_points) (map (to_result total) inputs)
      ≡ sum_ℤ (λ r. r.current_basis_points) (map (to_result total) inputs) -ℤ basis_point_scale
  unfolding to_result
  drifts-eq =
      rw
        (
          sum_ℤ-map (λ r. r.drift_basis_points) (to_result total) inputs,
          sum_ℤ-map (λ r. r.current_basis_points) (to_result total) inputs,
          sum_ℤ-sub (λ item. item.value_minor *ℤ basis_point_scale /ℤ total)
              (λ item. item.target_basis_points) inputs,
          v.full_target,
        )
        refl

  All-results :
      All
        (λ r. (pos 0 ≤ℤ r.current_basis_points) × (r.current_basis_points ≤ℤ basis_point_scale))
        (map (to_result total) inputs)
  All-results =
      All-of_map _ (to_result total) inputs (All-zip weight_range inputs amounts-eq weight-le)

-- The weights of the current allocation, added up.
abbrev pub weights : AllocationSnapshot → ℤ
weights s = sum_ℤ (λ r. r.current_basis_points) s.allocations

abbrev pub drifts : AllocationSnapshot → ℤ
drifts s = sum_ℤ (λ r. r.drift_basis_points) s.allocations

-- Whenever a portfolio of n assets is evaluated, every current weight lies between 0 and 10000
-- basis points; rounding down loses less than n basis points of the 10000 in total; and the drifts
-- from the targets add up to exactly what rounding lost.
pub snapshot_weights :
    (inputs : List AllocationInput) {s : AllocationSnapshot}
    → calculate_allocation_snapshot inputs ≡ ok s
    → (weights s ≤ℤ basis_point_scale)
      × (basis_point_scale <ℤ weights s +ℤ pos (length inputs))
      × (drifts s ≡ weights s -ℤ basis_point_scale)
      × All
          (λ r. (pos 0 ≤ℤ r.current_basis_points) × (r.current_basis_points ≤ℤ basis_point_scale))
          s.allocations
snapshot_weights inputs {s} h =
    let (v, e) = snapshot_ok→IsEvaluable inputs h in
    let (low, high) = weights_share inputs v in
    let total = weights-eq inputs v in
    rw e (
      ground (arith, total),
      rw total (unfold ◌+ℤ◌ in ground arith),
      drifts-eq inputs v,
      All-results inputs v,
    )
