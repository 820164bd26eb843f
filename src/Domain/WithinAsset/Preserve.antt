-- ===== src/Domain/WithinAsset/Preserve.antt =====
-- `resolvePreserveCurrentWithinAssetPoints` divides all 10000 points by the current values.
use portfolio_rebalancer.Prelude.{
  ℕ, ◌+◌, ◌-◌, ◌*◌, ◌/◌, ◌≤◌, ◌<◌, ℤ, pos, pos_part, ◌+ℤ◌, ◌-ℤ◌, ◌*ℤ◌, ◌/ℤ◌, ◌≤ℤ◌, ◌<ℤ◌, eq-pos,
  ltb_ℤ, leb_ℤ, sum_ℤ, sum-sort, sum_ℤ-pos, sum_ℤ-map, sum, sum_mul, floors-share, Text, Distinct,
  List, [], map, length, length-map, map-map_lem, sort, any, any_iff, All, All-map, All2, ◌∷◌, ok,
  arith, ◌≡◌, refl, ap, ◌∙◌, false, ltb_ℤ-false_iff,
}
use portfolio_rebalancer.Domain.{basis_point_scale}
use portfolio_rebalancer.Domain.Allocation.{has_repeats}
use portfolio_rebalancer.Domain.Allocation.Valid.{not-has_repeats_iff}
use portfolio_rebalancer.Domain.Shares.{Provisional, bonus_ids, award}
use portfolio_rebalancer.Domain.Shares.Exact.{sum-award, award_near}
use portfolio_rebalancer.Domain.WithinAsset.{
  WithinAssetValueInput, ResolvedWithinAssetInstrument, ResolvedWithinAssetAllocation, by_key,
  provisional_points, to_instrument, resolve_preserve_current_within_asset_points,
}

abbrev sorted_of : List WithinAssetValueInput → List WithinAssetValueInput
sorted_of inputs = sort by_key inputs

abbrev pub current_total : List WithinAssetValueInput → ℤ
current_total inputs = sum_ℤ (λ item. item.value_minor) inputs

abbrev shares : List WithinAssetValueInput → List Provisional
shares xs = map (provisional_points (current_total xs)) xs

abbrev bonus : List WithinAssetValueInput → List Text
bonus xs =
    bonus_ids (basis_point_scale -ℤ sum_ℤ (λ (s : Provisional). s.value) (shares xs)) (shares xs)

abbrev instruments_of : List WithinAssetValueInput → List ResolvedWithinAssetInstrument
instruments_of xs = map (to_instrument (bonus xs)) (shares xs)

-- The sorted instruments that pass the checks.
record IsDivisible (xs : List WithinAssetValueInput) : Type 0 where
  distinct : Distinct (map (λ item. item.instrument_key) xs)
  nonnegative : All (λ item. pos 0 ≤ℤ item.value_minor) xs
  positive : pos 0 <ℤ current_total xs

preserve_guards :
    (inputs : List WithinAssetValueInput) {r : ResolvedWithinAssetAllocation}
    → resolve_preserve_current_within_asset_points inputs ≡ ok r
    → (has_repeats (map (λ item. item.instrument_key) (sorted_of inputs)) ≡ false)
      × (any (λ item. ltb_ℤ item.value_minor (pos 0)) (sorted_of inputs) ≡ false)
      × (leb_ℤ (current_total (sorted_of inputs)) (pos 0) ≡ false)
      × (r.instruments ≡ instruments_of (sorted_of inputs))
unfolding resolve_preserve_current_within_asset_points
preserve_guards inputs h = ground arith

ok→IsDivisible :
    (inputs : List WithinAssetValueInput) {r : ResolvedWithinAssetAllocation}
    → resolve_preserve_current_within_asset_points inputs ≡ ok r
    → IsDivisible (sorted_of inputs)
ok→IsDivisible inputs h =
    let (repeats, negatives, empty, result) = preserve_guards inputs h in
    record {
      distinct = (not-has_repeats_iff _).0 repeats;
      nonnegative =
          All-map (λ item. (ltb_ℤ-false_iff item.value_minor (pos 0)).0) (sorted_of inputs)
            ((any_iff (λ item. ltb_ℤ item.value_minor (pos 0)) (sorted_of inputs)).0 negatives);
      positive = ground arith;
    }

abbrev amount : WithinAssetValueInput → ℕ
amount item = pos_part item.value_minor

module _ (xs : List WithinAssetValueInput) (v : IsDivisible xs) where
  abbrev whole : ℕ
  whole = pos_part (current_total xs)

  abbrev points : WithinAssetValueInput → ℕ
  points item = 10000 * amount item / whole

  whole-eq : current_total xs ≡ pos whole
  whole-eq = eq-pos (current_total xs) (let p = v.positive in ground (arith, p))

  whole_pos : 0 < whole
  whole_pos = let p = v.positive in ground (arith, p, whole-eq)

  amounts-eq : All (λ item. item.value_minor ≡ pos (amount item)) xs
  amounts-eq = All-map (λ item h. eq-pos item.value_minor h) xs v.nonnegative

  amounts-total : sum amount xs ≡ whole
  amounts-total =
      let e = sum_ℤ-pos (λ item. item.value_minor) amount xs amounts-eq in ground (arith, e)

  points-eq :
      (item : WithinAssetValueInput)
      → item.value_minor ≡ pos (amount item)
      → (provisional_points (current_total xs) item).value ≡ pos (points item)
  unfolding provisional_points ◌*ℤ◌ ◌/ℤ◌
  points-eq item e = rw (whole-eq, e) (ap (λ n. pos (n / whole)) (omega arith))

  points-total : sum_ℤ (λ s. s.value) (shares xs) ≡ pos (sum points xs)
  points-total =
      sum_ℤ-map (λ s. s.value) (provisional_points (current_total xs)) xs
      ∙ sum_ℤ-pos (λ item. (provisional_points (current_total xs) item).value) points xs
          (All-map points-eq xs amounts-eq)

  points_bound : (sum points xs ≤ 10000) × (10000 ≤ sum points xs + length xs)
  points_bound =
      floors-share whole whole_pos (λ item. 10000 * amount item) 10000 xs
        (sum_mul 10000 amount xs ∙ ap (λ n. 10000 * n) amounts-total)

  remaining-eq : basis_point_scale -ℤ sum_ℤ (λ s. s.value) (shares xs) ≡ pos (10000 - sum points xs)
  unfolding ◌-ℤ◌
  remaining-eq = rw points-total (ground (arith, points_bound))

  keys-Distinct : Distinct (map (λ s. s.id) (shares xs))
  unfolding provisional_points
  keys-Distinct =
      rw (map-map_lem (λ (s : Provisional). s.id) (provisional_points (current_total xs)) xs)
        v.distinct

  instruments-total : sum_ℤ (λ i. i.within_asset_points) (instruments_of xs) ≡ basis_point_scale
  unfolding ◌+ℤ◌
  instruments-total =
      sum_ℤ-map (λ i. i.within_asset_points) (to_instrument (bonus xs)) (shares xs)
      ∙ ap (λ k. sum_ℤ (award (bonus_ids k (shares xs))) (shares xs)) remaining-eq
      ∙ sum-award (10000 - sum points xs) (shares xs)
          (rw (length-map (provisional_points (current_total xs)) xs) (omega (arith, points_bound)))
          keys-Distinct
      ∙ (rw points-total (ap pos (omega (arith, points_bound))))

-- An instrument's points: its share of the current total in basis points, rounded down, or one more.
abbrev pub IsShareOf : ℤ → WithinAssetValueInput → ResolvedWithinAssetInstrument → Type 0
IsShareOf total item i =
    let exact = item.value_minor *ℤ basis_point_scale /ℤ total in
    (i.instrument_key ≡ item.instrument_key)
    × (exact ≤ℤ i.within_asset_points)
    × (i.within_asset_points ≤ℤ exact +ℤ pos 1)

shares-match :
    (total : ℤ) (chosen : List Text) (xs : List WithinAssetValueInput)
    → All2 (IsShareOf total) xs (map (to_instrument chosen) (map (provisional_points total) xs))
unfolding provisional_points
shares-match total chosen [] = tt
shares-match total chosen (x ∷ xs) =
    let (low, high) = award_near chosen (provisional_points total x) in
    ((refl, low, high), shares-match total chosen xs)

-- Whenever the current weights of an asset class are preserved, the points of its instruments add up
-- to exactly 10000; the instruments are listed in the order of their keys; and each has its share
-- of the current total in basis points, rounded down, or one point more.
pub preserve_exact :
    (inputs : List WithinAssetValueInput) {r : ResolvedWithinAssetAllocation}
    → resolve_preserve_current_within_asset_points inputs ≡ ok r
    → (sum_ℤ (λ i. i.within_asset_points) r.instruments ≡ basis_point_scale)
      × All2 (IsShareOf (current_total inputs)) (sort by_key inputs) r.instruments
preserve_exact inputs h =
    let (repeats, negatives, empty, result) = preserve_guards inputs h in
    rw (result, ← sum-sort by_key (λ (item : WithinAssetValueInput). item.value_minor) inputs)
      (
        instruments-total (sorted_of inputs) (ok→IsDivisible inputs h),
        shares-match (current_total (sorted_of inputs)) (bonus (sorted_of inputs))
            (sorted_of inputs),
      )
