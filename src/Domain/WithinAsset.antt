-- ===== src/Domain/WithinAsset.antt =====
-- packages/domain/src/within-asset-allocation.ts: the 10000 points of an asset class, divided over
-- its instruments by their current values or equally.
pub mod Preserve
pub mod Equal
pub mod Returns
mod Examples
use portfolio_rebalancer.Prelude.{
  ℕ, ℤ, pos, suc, ◌+ℤ◌, ◌-ℤ◌, ◌*ℤ◌, ◌/ℤ◌, ◌%ℤ◌, ltb_ℤ, leb_ℤ, sum_ℤ, Text, compare_text, is_blank,
  ◌||◌, Bool, List, [], ◌∷◌, map, length, any, sort, ◌==◌, if◌then◌else◌, Result, ok, err, ◌>>=◌,
  ◌>>◌, throw_if, Ordering,
}
use portfolio_rebalancer.Domain.{
  basis_point_scale, DomainError, no_instruments, empty_key, repeated_keys, negative_instrument,
  no_current_value,
}
use portfolio_rebalancer.Domain.Allocation.{has_repeats}
use portfolio_rebalancer.Domain.Shares.{Provisional, bonus_ids, award}

pub record WithinAssetValueInput : Type 0 where
  pub instrument_key : Text
  pub value_minor : ℤ

pub record ResolvedWithinAssetInstrument : Type 0 where
  pub instrument_key : Text
  pub within_asset_points : ℤ

pub data PolicyVersion : Type 0 where
  preserve_current_v1 equal_v1 : PolicyVersion

pub record ResolvedWithinAssetAllocation : Type 0 where
  pub policy_version : PolicyVersion
  pub instruments : List ResolvedWithinAssetInstrument

abbrev pub by_key : WithinAssetValueInput → WithinAssetValueInput → Ordering
by_key left right = compare_text left.instrument_key right.instrument_key

-- An entry of `provisional`.
unfoldable pub provisional_points : ℤ → WithinAssetValueInput → Provisional
provisional_points total item =
    let scaled = item.value_minor *ℤ basis_point_scale in
    record { id = item.instrument_key; value = scaled /ℤ total; remainder = scaled %ℤ total }

abbrev pub to_instrument : List Text → Provisional → ResolvedWithinAssetInstrument
to_instrument bonus item = record {
  instrument_key = item.id;
  within_asset_points = award bonus item;
}

unfoldable pub resolve_preserve_current_within_asset_points :
    List WithinAssetValueInput → Result DomainError ResolvedWithinAssetAllocation
unfolding provisional_points
resolve_preserve_current_within_asset_points inputs = do
  throw_if (length inputs == 0) no_instruments
  let sorted = sort by_key inputs
  throw_if (any (λ item. is_blank item.instrument_key) sorted) empty_key
  throw_if (has_repeats (map (λ item. item.instrument_key) sorted)) repeated_keys
  throw_if (any (λ item. ltb_ℤ item.value_minor (pos 0)) sorted) negative_instrument
  let total = sum_ℤ (λ item. item.value_minor) sorted
  throw_if (leb_ℤ total (pos 0)) no_current_value
  let provisional = map (provisional_points total) sorted
  let assigned = sum_ℤ (λ (item : Provisional). item.value) provisional
  let bonus = bonus_ids (basis_point_scale -ℤ assigned) provisional
  ok (record {
    policy_version = preserve_current_v1;
    instruments = map (to_instrument bonus) provisional;
  })

-- The `map` of `resolveEqualWithinAssetPoints`, from an index on.
unfoldable pub equal_points : ℤ → ℤ → ℕ → List Text → List ResolvedWithinAssetInstrument
equal_points base remaining index [] = []
equal_points base remaining index (key ∷ keys) =
    record {
      instrument_key = key;
      within_asset_points = base +ℤ (if ltb_ℤ (pos index) remaining then pos 1 else pos 0);
    }
    ∷ equal_points base remaining (suc index) keys

unfoldable pub resolve_equal_within_asset_points :
    List Text → Result DomainError ResolvedWithinAssetAllocation
unfolding equal_points
resolve_equal_within_asset_points keys = do
  let sorted = sort compare_text keys
  throw_if (length sorted == 0) no_instruments
  throw_if (any is_blank sorted) empty_key
  throw_if (has_repeats sorted) repeated_keys
  let count = pos (length sorted)
  let base = basis_point_scale /ℤ count
  let remaining = basis_point_scale %ℤ count
  ok (record { policy_version = equal_v1; instruments = equal_points base remaining 0 sorted })
