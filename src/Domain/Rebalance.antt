-- ===== src/Domain/Rebalance.antt =====
-- packages/domain/src/rebalance.ts: the desired value of each asset under a return policy.
pub mod Valid
pub mod Targets
pub mod Exact
pub mod Edges
mod Examples
use portfolio_rebalancer.Prelude.{
  ℤ, pos, ◌+ℤ◌, ◌-ℤ◌, ◌*ℤ◌, ◌/ℤ◌, ◌%ℤ◌, ltb_ℤ, sum_ℤ, Text, is_blank, TextMap, map_get, map_of,
  Bool, true, false, ◌||◌, Option, none, some, List, [], ◌∷◌, map, length, ◌==◌, if◌then◌else◌,
  Result, ok, err, ◌>>=◌, ◌>>◌, throw_if, map_ok, for_each,
}
use portfolio_rebalancer.Domain.{
  basis_point_scale, Subject, rebalance_asset, DomainError, no_rebalance_assets, empty_id,
  repeated_ids, bad_rebalance_asset, missing_result, negative_projection, missing_projection,
}
use portfolio_rebalancer.Domain.Allocation.{
  AllocationInput, has_repeats, calculate_allocation_snapshot,
}
use portfolio_rebalancer.Domain.Shares.{Provisional, bonus_ids, award}

pub data RebalanceReturnPolicy : Type 0 where
  band_edge target : RebalanceReturnPolicy

pub data RebalanceReason : Type 0 where
  in_range below_lower above_upper : RebalanceReason

pub record RebalanceAssetInput : Type 0 where
  pub id : Text
  pub value_minor : ℤ
  pub target_basis_points : ℤ
  pub lower_basis_points : ℤ
  pub upper_basis_points : ℤ

-- `...input` and three fields more.
pub record RebalanceAssetDecision : Type 0 where
  pub input : RebalanceAssetInput
  pub reason : RebalanceReason
  pub desired_value_minor : ℤ
  pub delta_minor : ℤ

pub record RebalanceTargetResult : Type 0 where
  pub policy : RebalanceReturnPolicy
  pub total_value_minor : ℤ
  pub decisions : List RebalanceAssetDecision

unfoldable pub validate_non_empty_id : Subject → Text → Result DomainError (Unit {0})
validate_non_empty_id subject id = throw_if (is_blank id) (empty_id subject)

unfoldable pub validate_unique_ids : Subject → List Text → Result DomainError (Unit {0})
unfolding validate_non_empty_id
validate_unique_ids subject ids = do
  for_each (validate_non_empty_id subject) ids
  throw_if (has_repeats ids) (repeated_ids subject)

abbrev pub is_bad_asset : RebalanceAssetInput → Bool
is_bad_asset input =
    ltb_ℤ input.value_minor (pos 0)
    || ltb_ℤ input.lower_basis_points (pos 0)
    || ltb_ℤ input.target_basis_points input.lower_basis_points
    || ltb_ℤ input.upper_basis_points input.target_basis_points
    || ltb_ℤ basis_point_scale input.upper_basis_points

unfoldable pub validate_asset : RebalanceAssetInput → Result DomainError (Unit {0})
validate_asset input = throw_if (is_bad_asset input) (bad_rebalance_asset input.id)

unfoldable pub validate_rebalance_assets : List RebalanceAssetInput → Result DomainError (Unit {0})
unfolding validate_asset
validate_rebalance_assets inputs = do
  throw_if (length inputs == 0) no_rebalance_assets
  validate_unique_ids rebalance_asset (map (λ input. input.id) inputs)
  for_each validate_asset inputs

abbrev pub is_in_range : RebalanceReason → Bool
is_in_range in_range = true
is_in_range below_lower = false
is_in_range above_upper = false

unfoldable pub classify_band : RebalanceAssetInput → ℤ → RebalanceReason
classify_band input total =
    let scaled = input.value_minor *ℤ basis_point_scale in
    if ltb_ℤ scaled (input.lower_basis_points *ℤ total)
    then below_lower
    else if ltb_ℤ (input.upper_basis_points *ℤ total) scaled
    then above_upper
    else in_range

unfoldable pub ceil_divide : ℤ → ℤ → ℤ
ceil_divide numerator denominator = (numerator +ℤ denominator -ℤ pos 1) /ℤ denominator

unfoldable pub desired_band_edge_value : RebalanceAssetInput → RebalanceReason → ℤ → ℤ
unfolding ceil_divide
desired_band_edge_value input below_lower total =
    ceil_divide (input.lower_basis_points *ℤ total) basis_point_scale
desired_band_edge_value input above_upper total =
    input.upper_basis_points *ℤ total /ℤ basis_point_scale
desired_band_edge_value input in_range total = input.value_minor

-- The body of the first `map` of `allocateExactTargetValues`.
unfoldable pub provisional_share : ℤ → RebalanceAssetInput → Provisional
provisional_share total input =
    let scaled = total *ℤ input.target_basis_points in
    record {
      id = input.id;
      value = scaled /ℤ basis_point_scale;
      remainder = scaled %ℤ basis_point_scale;
    }

unfoldable pub allocate_exact_target_values : List RebalanceAssetInput → ℤ → TextMap ℤ
unfolding provisional_share
allocate_exact_target_values inputs total =
    let provisional = map (provisional_share total) inputs in
    let assigned = sum_ℤ (λ (item : Provisional). item.value) provisional in
    let bonus = bonus_ids (total -ℤ assigned) provisional in
    map_of (map (λ (item : Provisional). (item.id, award bonus item)) provisional)

abbrev pub or_throw : {V : Type 0} → DomainError → Option V → Result DomainError V
or_throw e none = err e
or_throw e (some v) = ok v

unfoldable pub get_required_map_value : {V : Type 0} → TextMap V → Text → Result DomainError V
get_required_map_value m key = or_throw (missing_result key) (map_get key m)

abbrev pub to_allocation_input : RebalanceAssetInput → AllocationInput
to_allocation_input input = record {
  id = input.id;
  value_minor = input.value_minor;
  target_basis_points = input.target_basis_points;
}

-- `desiredValueMinor` in `calculateRebalanceTargets`.
unfoldable pub desired_value :
    RebalanceReturnPolicy
    → TextMap ℤ
    → ℤ
    → RebalanceAssetInput
    → RebalanceReason
    → Result DomainError ℤ
desired_value target target_values total input reason =
    get_required_map_value target_values input.id
desired_value band_edge target_values total input reason =
    ok (desired_band_edge_value input reason total)

unfoldable pub decide :
    RebalanceReturnPolicy
    → TextMap ℤ
    → ℤ
    → RebalanceAssetInput
    → Result DomainError RebalanceAssetDecision
unfolding desired_value
decide policy target_values total input = do
  let reason = classify_band input total
  desired ← desired_value policy target_values total input reason
  ok (record {
    input = input;
    reason = reason;
    desired_value_minor = desired;
    delta_minor = desired -ℤ input.value_minor;
  })

-- `targetValues`
unfoldable pub target_values_for : RebalanceReturnPolicy → List RebalanceAssetInput → ℤ → TextMap ℤ
target_values_for target inputs total = allocate_exact_target_values inputs total
target_values_for band_edge inputs total = []

unfoldable pub calculate_rebalance_targets :
    List RebalanceAssetInput → RebalanceReturnPolicy → Result DomainError RebalanceTargetResult
unfolding target_values_for
calculate_rebalance_targets inputs policy = do
  validate_rebalance_assets inputs
  snapshot ← calculate_allocation_snapshot (map to_allocation_input inputs)
  let total = snapshot.total_value_minor
  decisions ← map_ok (decide policy (target_values_for policy inputs total) total) inputs
  ok (record { policy = policy; total_value_minor = total; decisions = decisions })
