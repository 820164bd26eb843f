-- ===== src/Domain/Rebalance/Valid.antt =====
-- Which portfolios `calculateRebalanceTargets` accepts.
use portfolio_rebalancer.Prelude.{
  pos, ◌≤ℤ◌, ◌<ℤ◌, sum_ℤ, sum_ℤ-map, Text, is_blank, Distinct, false, List, map, length, length-map,
  map-map_lem, any_iff, All, All-map, All-of_map, All-to_map, ok, >>=-eq-ok, throw_if, throw_if-ok,
  for_each, for_each-All, All-for_each, arith, ◌≡◌, refl, sym, ◌∙◌, ◌↔◌, ◌<◌, ◌==◌,
}
use portfolio_rebalancer.Domain.{
  basis_point_scale, Subject, rebalance_asset, empty_id, repeated_ids, no_rebalance_assets,
}
use portfolio_rebalancer.Domain.Allocation.{has_repeats}
use portfolio_rebalancer.Domain.Allocation.Valid.{IsEvaluable, not-has_repeats_iff}
use portfolio_rebalancer.Domain.Rebalance.{
  RebalanceAssetInput, validate_non_empty_id, validate_unique_ids, is_bad_asset, validate_asset,
  validate_rebalance_assets, to_allocation_input,
}

-- A value that is not negative and a target inside its band.
abbrev pub IsBanded : RebalanceAssetInput → Type 0
IsBanded input =
    (pos 0 ≤ℤ input.value_minor)
    × (pos 0 ≤ℤ input.lower_basis_points)
    × (input.lower_basis_points ≤ℤ input.target_basis_points)
    × (input.target_basis_points ≤ℤ input.upper_basis_points)
    × (input.upper_basis_points ≤ℤ basis_point_scale)

pub record IsWellFormed (inputs : List RebalanceAssetInput) : Type 0 where
  pub nonempty : 0 < length inputs
  pub named : All (λ input. is_blank input.id ≡ false) inputs
  pub distinct : Distinct (map (λ input. input.id) inputs)
  pub banded : All IsBanded inputs

-- Well formed, with targets of 10000 basis points in all and something to divide.
pub record IsRebalanceable (inputs : List RebalanceAssetInput) : Type 0 where
  pub well_formed : IsWellFormed inputs
  pub full_target : sum_ℤ (λ input. input.target_basis_points) inputs ≡ basis_point_scale
  pub positive : pos 0 <ℤ sum_ℤ (λ input. input.value_minor) inputs

bad_asset_iff : (input : RebalanceAssetInput) → (is_bad_asset input ≡ false) ↔ IsBanded input
bad_asset_iff input = ground arith

named-ok :
    (subject : Subject) (id : Text)
    → (validate_non_empty_id subject id ≡ ok tt) ↔ (is_blank id ≡ false)
unfolding validate_non_empty_id
named-ok subject id = (throw_if-ok (is_blank id) (empty_id subject), λ e. rw e refl)

-- Identifiers pass when none is blank and none is repeated.
pub unique_ids_iff :
    (subject : Subject) (ids : List Text)
    → (validate_unique_ids subject ids ≡ ok tt)
      ↔ (All (λ id. is_blank id ≡ false) ids × Distinct ids)
unfolding validate_unique_ids
unique_ids_iff subject ids = (
  λ h.
      let (u, first, last) =
        >>=-eq-ok (for_each (validate_non_empty_id subject) ids)
          (λ _. throw_if (has_repeats ids) (repeated_ids subject)) h in
      (
        All-map (λ id. (named-ok subject id).0) ids
            (All-for_each (validate_non_empty_id subject) ids first),
        (not-has_repeats_iff ids).0 (throw_if-ok (has_repeats ids) (repeated_ids subject) last),
      ),
  λ (named, distinct).
      rw
        (
          for_each-All (validate_non_empty_id subject) ids
              (All-map (λ id. (named-ok subject id).1) ids named),
          (not-has_repeats_iff ids).1 distinct,
        )
        refl,
)

asset-ok : (input : RebalanceAssetInput) → (validate_asset input ≡ ok tt) ↔ IsBanded input
unfolding validate_asset
asset-ok input = ground arith

pub IsWellFormed-iff :
    (inputs : List RebalanceAssetInput)
    → (validate_rebalance_assets inputs ≡ ok tt) ↔ IsWellFormed inputs
unfolding validate_rebalance_assets
IsWellFormed-iff inputs = (
  λ h.
      let (u, first, rest) = >>=-eq-ok (throw_if (length inputs == 0) no_rebalance_assets) _ h in
      let (w, second, last) =
        >>=-eq-ok (validate_unique_ids rebalance_asset (map (λ input. input.id) inputs)) _ rest in
      let (named, distinct) =
        (unique_ids_iff rebalance_asset (map (λ input. input.id) inputs)).0 second in
      record {
        nonempty = ground (arith, throw_if-ok (length inputs == 0) no_rebalance_assets first);
        named = All-to_map (λ id. is_blank id ≡ false) (λ input. input.id) inputs named;
        distinct = distinct;
        banded =
            All-map (λ input. (asset-ok input).0) inputs (All-for_each validate_asset inputs last);
      },
  λ v.
      let ids =
        (unique_ids_iff rebalance_asset (map (λ input. input.id) inputs)).1
          (All-of_map (λ id. is_blank id ≡ false) (λ input. input.id) inputs v.named, v.distinct) in
      let some_assets : (length inputs == 0) ≡ false = ground (arith, v.nonempty) in
      rw
        (
          some_assets,
          ids,
          for_each-All validate_asset inputs
              (All-map (λ input. (asset-ok input).1) inputs v.banded),
        )
        refl,
)

-- The input of `calculateAllocationSnapshot` passes its checks when the portfolio is rebalanceable.
pub IsRebalanceable→IsEvaluable :
    (inputs : List RebalanceAssetInput)
    → IsRebalanceable inputs
    → IsEvaluable (map to_allocation_input inputs)
IsRebalanceable→IsEvaluable inputs v =
    let ids = map-map_lem (λ item. item.id) to_allocation_input inputs in
    record {
      nonempty = rw (length-map to_allocation_input inputs) v.well_formed.nonempty;
      named = rw ids (
          (any_iff is_blank (map (λ input. input.id) inputs)).1 (
            All-of_map (λ id. is_blank id ≡ false) (λ input. input.id) inputs v.well_formed.named));
      distinct = rw ids v.well_formed.distinct;
      nonnegative =
          All-of_map _ to_allocation_input inputs
            (All-map (λ input b. (b.0, omega arith)) inputs v.well_formed.banded);
      full_target =
          sum_ℤ-map (λ item. item.target_basis_points) to_allocation_input inputs ∙ v.full_target;
      positive = rw (sum_ℤ-map (λ item. item.value_minor) to_allocation_input inputs) v.positive;
    }

pub IsEvaluable→IsRebalanceable :
    (inputs : List RebalanceAssetInput)
    → IsWellFormed inputs
    → IsEvaluable (map to_allocation_input inputs)
    → IsRebalanceable inputs
IsEvaluable→IsRebalanceable inputs w e = record {
  well_formed = w;
  full_target =
      sym (sum_ℤ-map (λ item. item.target_basis_points) to_allocation_input inputs) ∙ e.full_target;
  positive = rw (← sum_ℤ-map (λ item. item.value_minor) to_allocation_input inputs) e.positive;
}
