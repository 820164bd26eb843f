-- ===== src/Domain/WithinAsset/Returns.antt =====
-- When the points of an asset class can be divided.
use portfolio_rebalancer.Prelude.{
  pos, ◌≤ℤ◌, ◌<ℤ◌, ◌<◌, ltb_ℤ, sum_ℤ, Text, compare_text, is_blank, Distinct, Bool, true, false,
  List, map, any, length, sort, All, any_iff, All-map, ltb_ℤ-false_iff, succeeds, arith, ◌≡◌, refl,
  ◌↔◌, sym, subst, ap, [], ◌∷◌, sum-sort, sort-All, All-sort, All-zip, sort-Distinct, Distinct-sort,
  length-sort,
}
use portfolio_rebalancer.Domain.Allocation.{has_repeats}
use portfolio_rebalancer.Domain.Allocation.Valid.{not-has_repeats_iff}
use portfolio_rebalancer.Domain.WithinAsset.{
  WithinAssetValueInput, by_key, resolve_preserve_current_within_asset_points,
  resolve_equal_within_asset_points,
}

abbrev keys_of : List WithinAssetValueInput → List Text
keys_of xs = map (λ item. item.instrument_key) xs

-- The instruments, in the order of their keys.
abbrev pub in_order : List WithinAssetValueInput → List WithinAssetValueInput
in_order inputs = sort by_key inputs

preserve_tests :
    (inputs : List WithinAssetValueInput)
    → (succeeds (resolve_preserve_current_within_asset_points inputs) ≡ true) ↔ (
        (0 < length inputs)
        × (any (λ item. is_blank item.instrument_key) (in_order inputs) ≡ false)
        × (has_repeats (keys_of (in_order inputs)) ≡ false)
        × (any (λ item. ltb_ℤ item.value_minor (pos 0)) (in_order inputs) ≡ false)
        × (pos 0 <ℤ sum_ℤ (λ item. item.value_minor) (in_order inputs)))
unfolding resolve_preserve_current_within_asset_points
preserve_tests inputs = ground arith

equal_tests :
    (keys : List Text)
    → (succeeds (resolve_equal_within_asset_points keys) ≡ true) ↔ (
        (0 < length (sort compare_text keys))
        × (any is_blank (sort compare_text keys) ≡ false)
        × (has_repeats (sort compare_text keys) ≡ false))
unfolding resolve_equal_within_asset_points
equal_tests keys = ground arith

-- The current weights of an asset class are preserved exactly when there is an instrument, no key is
-- blank or repeated, no value is negative and the values add up to more than 0.
pub preserve_returns_iff :
    (inputs : List WithinAssetValueInput)
    → (succeeds (resolve_preserve_current_within_asset_points inputs) ≡ true) ↔ (
        (0 < length inputs)
        × All (λ item. (is_blank item.instrument_key ≡ false) × (pos 0 ≤ℤ item.value_minor)) inputs
        × Distinct (keys_of inputs)
        × (pos 0 <ℤ sum_ℤ (λ item. item.value_minor) inputs))
preserve_returns_iff inputs =
    let sorted = in_order inputs in
    let negative : WithinAssetValueInput → Bool = λ item. ltb_ℤ item.value_minor (pos 0) in
    let unnamed : WithinAssetValueInput → Bool = λ item. is_blank item.instrument_key in
    let total = sum-sort by_key (λ (item : WithinAssetValueInput). item.value_minor) inputs in
    let key : WithinAssetValueInput → Text = λ item. item.instrument_key in
    (
      λ h.
          let (nonempty, named, repeats, nonnegative, positive) = (preserve_tests inputs).0 h in
          (
            nonempty,
            sort-All by_key
                (λ item. (is_blank item.instrument_key ≡ false) × (pos 0 ≤ℤ item.value_minor))
                inputs
                (All-zip (λ item a b. (a, (ltb_ℤ-false_iff item.value_minor (pos 0)).0 b)) sorted
                  ((any_iff unnamed sorted).0 named) ((any_iff negative sorted).0 nonnegative)),
            sort-Distinct by_key key inputs ((not-has_repeats_iff (keys_of sorted)).0 repeats),
            subst (λ t. pos 0 <ℤ t) total positive,
          ),
      λ (nonempty, valid, distinct, positive).
          let all_valid =
            All-sort by_key
              (λ item. (is_blank item.instrument_key ≡ false) × (pos 0 ≤ℤ item.value_minor)) inputs
              valid in
          (preserve_tests inputs).1 (
            nonempty,
            (any_iff unnamed sorted).1 (All-map (λ item v. v.0) sorted all_valid),
            (not-has_repeats_iff (keys_of sorted)).1 (Distinct-sort by_key key inputs distinct),
            (any_iff negative sorted).1 (
                All-map (λ item v. (ltb_ℤ-false_iff item.value_minor (pos 0)).1 v.1) sorted
                  all_valid),
            subst (λ t. pos 0 <ℤ t) (sym total) positive,
          ),
    )

map_id : (keys : List Text) → map (λ key. key) keys ≡ keys
map_id [] = refl
map_id (key ∷ keys) = ap (λ r. key ∷ r) (map_id keys)

-- Points are divided equally exactly when there is a key and no key is blank or repeated.
pub equal_returns_iff :
    (keys : List Text)
    → (succeeds (resolve_equal_within_asset_points keys) ≡ true)
      ↔ ((0 < length keys) × All (λ key. is_blank key ≡ false) keys × Distinct keys)
equal_returns_iff keys =
    let sorted = sort compare_text keys in
    let named : Text → Type 0 = λ key. is_blank key ≡ false in
    let same_length = length-sort compare_text keys in
    (
      λ h.
          let (nonempty, blank, repeats) = (equal_tests keys).0 h in
          (
            omega (arith, same_length),
            sort-All compare_text named keys ((any_iff is_blank sorted).0 blank),
            subst Distinct (map_id keys) (
                sort-Distinct compare_text (λ key. key) keys
                  (subst Distinct (sym (map_id sorted)) ((not-has_repeats_iff sorted).0 repeats))),
          ),
      λ (nonempty, named_all, distinct). (equal_tests keys).1 (
        omega (arith, same_length),
        (any_iff is_blank sorted).1 (All-sort compare_text named keys named_all),
        (not-has_repeats_iff sorted).1 (
            subst Distinct (map_id sorted) (
              Distinct-sort compare_text (λ key. key) keys
                (subst Distinct (sym (map_id keys)) distinct))),
      ),
    )
