-- ===== src/Domain/Projection/Conserved.antt =====
-- The projected portfolio is the portfolio with its trades, asset by asset.
use portfolio_rebalancer.Prelude.{
  ℤ, pos, ◌+ℤ◌, ◌≤ℤ◌, sum_ℤ, sum_ℤ-map, sum_ℤ-add, text_eq, Distinct, All-found, List, [], ◌∷◌, map,
  find, All, All-map, All2, some, Result, ok, ◌>>=◌, >>=-eq-ok, map_ok, map_ok-All, map_ok-eq,
  map_ok-map, not, ok-injective, arith, ◌≡◌, refl, subst, ◌∙◌, ◌*ℤ◌, ◌<ℤ◌, quotient_lem, int_laws,
  true, ◌⊎◌, ◌↔◌,
}
use portfolio_rebalancer.Domain.{DomainError, basis_point_scale}
use portfolio_rebalancer.Domain.Allocation.{
  AllocationSnapshot, to_result, calculate_allocation_snapshot,
}
use portfolio_rebalancer.Domain.Allocation.Valid.{snapshot_of, snapshot_ok→IsEvaluable}
use portfolio_rebalancer.Domain.Rebalance.{
  RebalanceAssetInput, classify_band, is_in_range, validate_rebalance_assets, to_allocation_input,
}
use portfolio_rebalancer.Domain.Rebalance.Valid.{IsWellFormed-iff}
use portfolio_rebalancer.Domain.Projection.{
  ProjectedAllocationInput, ProjectedAllocation, ProjectedAllocationResult, project_input,
  project_allocation, project_allocation_after_rounded_trades,
}

-- An asset with its trade.
abbrev pub traded : ProjectedAllocationInput → RebalanceAssetInput
traded input = record (input.asset) { value_minor = input.asset.value_minor +ℤ input.delta_minor }

pub project_input-traded :
    (input : ProjectedAllocationInput) (y : RebalanceAssetInput)
    → project_input input ≡ ok y
    → y ≡ traded input
unfolding project_input
project_input-traded input y h = ground arith

pub project_input-nonnegative :
    (input : ProjectedAllocationInput)
    → project_input input ≡ ok (traded input)
    → pos 0 ≤ℤ (traded input).value_minor
unfolding project_input
project_input-nonnegative input h = ground arith

abbrev pub allocation_at : ℤ → RebalanceAssetInput → ProjectedAllocation
allocation_at total source =
    let result = to_result total (to_allocation_input source) in
    record {
      id = source.id;
      value_minor = source.value_minor;
      target_basis_points = source.target_basis_points;
      lower_basis_points = source.lower_basis_points;
      upper_basis_points = source.upper_basis_points;
      current_basis_points = result.current_basis_points;
      drift_basis_points = result.drift_basis_points;
      outside_band = not (is_in_range (classify_band source total));
    }

project-found :
    (projected : List RebalanceAssetInput) (total : ℤ) (source : RebalanceAssetInput)
    → find (λ y. text_eq y.id source.id) projected ≡ some source
    → project_allocation projected total (to_result total (to_allocation_input source))
      ≡ ok (allocation_at total source)
unfolding project_allocation to_result
project-found projected total source e = rw e refl

-- The value lies outside the band, at an exact comparison.
abbrev pub IsOutside : ℤ → ProjectedAllocation → Type 0
IsOutside total a =
    (a.value_minor *ℤ basis_point_scale <ℤ a.lower_basis_points *ℤ total)
    ⊎ (a.upper_basis_points *ℤ total <ℤ a.value_minor *ℤ basis_point_scale)

-- What the projection says of one asset: itself, its value with the trade, its targets, that value's
-- share of the projected total in basis points, rounded down, how far it is from the target, and
-- whether the value lies outside its band.
abbrev pub IsProjection : ℤ → ProjectedAllocationInput → ProjectedAllocation → Type 0
IsProjection total input a =
    (a.id ≡ input.asset.id)
    × (a.value_minor ≡ input.asset.value_minor +ℤ input.delta_minor)
    × (pos 0 ≤ℤ a.value_minor)
    × (a.target_basis_points ≡ input.asset.target_basis_points)
    × (a.lower_basis_points ≡ input.asset.lower_basis_points)
    × (a.upper_basis_points ≡ input.asset.upper_basis_points)
    × (a.current_basis_points *ℤ total ≤ℤ a.value_minor *ℤ basis_point_scale)
    × (a.value_minor *ℤ basis_point_scale <ℤ a.current_basis_points *ℤ total +ℤ total)
    × (a.drift_basis_points +ℤ a.target_basis_points ≡ a.current_basis_points)
    × ((a.outside_band ≡ true) ↔ IsOutside total a)

scaled_nonneg : (a : ℤ) → pos 0 ≤ℤ a → pos 0 ≤ℤ a *ℤ basis_point_scale
unfolding ◌*ℤ◌
scaled_nonneg a h = ground arith

IsOutside-iff :
    (total : ℤ) (source : RebalanceAssetInput)
    → (not (is_in_range (classify_band source total)) ≡ true)
      ↔ IsOutside total (allocation_at total source)
unfolding classify_band to_result
IsOutside-iff total source = ground arith

allocation-IsProjection :
    (total : ℤ) (input : ProjectedAllocationInput)
    → pos 0 <ℤ total
    → pos 0 ≤ℤ (traded input).value_minor
    → IsProjection total input (allocation_at total (traded input))
unfolding to_result
allocation-IsProjection total input p h =
    let value = (traded input).value_minor in
    let (nonneg, low, above) =
      quotient_lem (value *ℤ basis_point_scale) total (scaled_nonneg value h) p in
    (
      refl,
      refl,
      h,
      refl,
      refl,
      refl,
      low,
      omega int_laws,
      omega int_laws,
      IsOutside-iff total (traded input),
    )

allocations-match :
    (total : ℤ) (inputs : List ProjectedAllocationInput)
    → pos 0 <ℤ total
    → All (λ input. pos 0 ≤ℤ (traded input).value_minor) inputs
    → All2 (IsProjection total) inputs (map (allocation_at total) (map traded inputs))
allocations-match total [] p h = tt
allocations-match total (x ∷ xs) p h =
    (allocation-IsProjection total x p h.0, allocations-match total xs p h.1)

pub all-projected :
    (projected : List RebalanceAssetInput) (total : ℤ)
    → Distinct (map (λ source. source.id) projected)
    → map_ok
        (project_allocation projected total)
        (map (to_result total) (map to_allocation_input projected))
      ≡ ok (map (allocation_at total) projected)
all-projected projected total d =
    map_ok-map (project_allocation projected total) (to_result total)
      (map to_allocation_input projected)
    ∙ map_ok-map (λ item. project_allocation projected total (to_result total item))
        to_allocation_input projected
    ∙ map_ok-All _ (allocation_at total) projected (
        All-map (project-found projected total) projected
          (All-found (λ source. source.id) projected d))

projected_total :
    (inputs : List ProjectedAllocationInput)
    → (snapshot_of (map to_allocation_input (map traded inputs))).total_value_minor
      ≡ sum_ℤ (λ input. input.asset.value_minor) inputs +ℤ sum_ℤ (λ input. input.delta_minor) inputs
projected_total inputs =
    sum_ℤ-map (λ item. item.value_minor) to_allocation_input (map traded inputs)
    ∙ sum_ℤ-map (λ source. source.value_minor) traded inputs
    ∙ sum_ℤ-add (λ input. input.asset.value_minor) (λ input. input.delta_minor) inputs

abbrev finish_with :
    List RebalanceAssetInput → AllocationSnapshot → Result DomainError ProjectedAllocationResult
finish_with projected snapshot =
    map_ok (project_allocation projected snapshot.total_value_minor) snapshot.allocations
    >>= λ allocations.
        ok (record { total_value_minor = snapshot.total_value_minor; allocations = allocations })

finish-IsProjection :
    (inputs : List ProjectedAllocationInput) {r : ProjectedAllocationResult}
    → pos 0 <ℤ (snapshot_of (map to_allocation_input (map traded inputs))).total_value_minor
    → All (λ input. pos 0 ≤ℤ (traded input).value_minor) inputs
    → Distinct (map (λ source. source.id) (map traded inputs))
    → finish_with (map traded inputs) (snapshot_of (map to_allocation_input (map traded inputs)))
      ≡ ok r
    → (r.total_value_minor
        ≡ sum_ℤ (λ input. input.asset.value_minor) inputs
          +ℤ sum_ℤ (λ input. input.delta_minor) inputs)
      × All2 (IsProjection r.total_value_minor) inputs r.allocations
finish-IsProjection inputs {r} p h d e =
    let total = (snapshot_of (map to_allocation_input (map traded inputs))).total_value_minor in
    let found = all-projected (map traded inputs) total d in
    let e' = rw found at e in
    rw (← ok-injective e') (projected_total inputs, allocations-match total inputs p h)

-- Whenever a projection returns, its total is the value of the portfolio plus all trades, and it
-- describes each asset of the input in turn: its value with the trade, which is not negative, that
-- value's share of the total in basis points, rounded down, its distance from the target, and whether
-- the value lies outside the band.
pub IsProjection-conserved :
    (inputs : List ProjectedAllocationInput) {r : ProjectedAllocationResult}
    → project_allocation_after_rounded_trades inputs ≡ ok r
    → (r.total_value_minor
        ≡ sum_ℤ (λ input. input.asset.value_minor) inputs
          +ℤ sum_ℤ (λ input. input.delta_minor) inputs)
      × All2 (IsProjection r.total_value_minor) inputs r.allocations
unfolding project_allocation_after_rounded_trades
IsProjection-conserved inputs {r} h =
    let (ps, first, rest) = >>=-eq-ok (map_ok project_input inputs) _ h in
    let (e, all) = map_ok-eq project_input traded project_input-traded inputs first in
    let (u, second, more) = >>=-eq-ok (validate_rebalance_assets ps) _ rest in
    let (s, third, last) =
      >>=-eq-ok (calculate_allocation_snapshot (map to_allocation_input ps)) _ more in
    let d = ((IsWellFormed-iff ps).0 second).distinct in
    let (v, total) = snapshot_ok→IsEvaluable (map to_allocation_input ps) third in
    finish-IsProjection inputs
      (subst (λ qs. pos 0 <ℤ (snapshot_of (map to_allocation_input qs)).total_value_minor) e
        v.positive)
      (All-map project_input-nonnegative inputs all)
      (subst (λ qs. Distinct (map (λ source. source.id) qs)) e d)
      (subst (λ qs. finish_with qs (snapshot_of (map to_allocation_input qs)) ≡ ok r) e
        (subst (λ t. finish_with ps t ≡ ok r) total last))
