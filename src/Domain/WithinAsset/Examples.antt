-- ===== src/Domain/WithinAsset/Examples.antt =====
-- Three instruments of an asset class.
use portfolio_rebalancer.Prelude.{
  pos, ◌+ℤ◌, ◌-ℤ◌, ◌*ℤ◌, ◌/ℤ◌, ◌%ℤ◌, ◌≤ℤ◌, ◌<ℤ◌, ◌<◌, sum_ℤ, sum_from, sort, insert, Text, text,
  text_eq, compare_text, contains, set_of, set_from, is_blank, Distinct, List, [], ◌∷◌, map, length,
  All, All2, succeeds, true, false, ok, ◌≡◌, refl, ◌↔◌,
}
use portfolio_rebalancer.Domain.{basis_point_scale}
use portfolio_rebalancer.Domain.Shares.{
  bonus_ids, award, by_remainder, compare_descending, slice_to,
}
use portfolio_rebalancer.Domain.WithinAsset.{
  WithinAssetValueInput, ResolvedWithinAssetInstrument, ResolvedWithinAssetAllocation,
  preserve_current_v1, equal_v1, by_key, provisional_points,
  resolve_preserve_current_within_asset_points, equal_points, resolve_equal_within_asset_points,
}
use portfolio_rebalancer.Domain.WithinAsset.Preserve.{current_total, IsShareOf, preserve_exact}
use portfolio_rebalancer.Domain.WithinAsset.Equal.{IsEven, equal_exact}
use portfolio_rebalancer.Domain.WithinAsset.Returns.{preserve_returns_iff, equal_returns_iff}

abbrev holdings : List WithinAssetValueInput
holdings =
    record { instrument_key = text "b"; value_minor = pos 1 }
    ∷ record { instrument_key = text "a"; value_minor = pos 1 }
    ∷ record { instrument_key = text "c"; value_minor = pos 1 }
    ∷ []

abbrev thirds : List ResolvedWithinAssetInstrument
thirds =
    record { instrument_key = text "a"; within_asset_points = pos 3334 }
    ∷ record { instrument_key = text "b"; within_asset_points = pos 3333 }
    ∷ record { instrument_key = text "c"; within_asset_points = pos 3333 }
    ∷ []

abbrev preserved : ResolvedWithinAssetAllocation
preserved = record { policy_version = preserve_current_v1; instruments = thirds }

preserve_computed : resolve_preserve_current_within_asset_points holdings ≡ ok preserved
unfolding resolve_preserve_current_within_asset_points provisional_points bonus_ids award
    by_remainder compare_descending slice_to sort insert sum_ℤ sum_from set_of set_from contains
    text_eq compare_text ◌+ℤ◌ ◌-ℤ◌ ◌*ℤ◌ ◌/ℤ◌ ◌%ℤ◌
preserve_computed = refl

preserve_exact_example :
    (sum_ℤ (λ (i : ResolvedWithinAssetInstrument). i.within_asset_points) preserved.instruments
      ≡ basis_point_scale)
    × All2 (IsShareOf (current_total holdings)) (sort by_key holdings) preserved.instruments
preserve_exact_example = preserve_exact holdings preserve_computed

preserve_returns_iff_example :
    (succeeds (resolve_preserve_current_within_asset_points holdings) ≡ true) ↔ (
      (0 < length holdings)
      × All (λ item. (is_blank item.instrument_key ≡ false) × (pos 0 ≤ℤ item.value_minor)) holdings
      × Distinct (map (λ item. item.instrument_key) holdings)
      × (pos 0 <ℤ sum_ℤ (λ (item : WithinAssetValueInput). item.value_minor) holdings))
preserve_returns_iff_example = preserve_returns_iff holdings

abbrev keys : List Text
keys = text "b" ∷ text "a" ∷ text "c" ∷ []

abbrev divided : ResolvedWithinAssetAllocation
divided = record { policy_version = equal_v1; instruments = thirds }

equal_computed : resolve_equal_within_asset_points keys ≡ ok divided
unfolding resolve_equal_within_asset_points equal_points sort insert set_of set_from contains
    text_eq compare_text ◌+ℤ◌ ◌/ℤ◌ ◌%ℤ◌
equal_computed = refl

equal_exact_example :
    (sum_ℤ (λ (i : ResolvedWithinAssetInstrument). i.within_asset_points) divided.instruments
      ≡ basis_point_scale)
    × All2
        (IsEven (basis_point_scale /ℤ pos (length keys)))
        (sort compare_text keys)
        divided.instruments
equal_exact_example = equal_exact keys equal_computed

equal_returns_iff_example :
    (succeeds (resolve_equal_within_asset_points keys) ≡ true)
    ↔ ((0 < length keys) × All (λ key. is_blank key ≡ false) keys × Distinct keys)
equal_returns_iff_example = equal_returns_iff keys
