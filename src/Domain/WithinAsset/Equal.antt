-- ===== src/Domain/WithinAsset/Equal.antt =====
-- `resolveEqualWithinAssetPoints` divides all 10000 points as evenly as whole points allow.
use native.Mathlib.Nat.{mod-lt, div-add-mod}
use portfolio_rebalancer.Prelude.{
  ℕ, suc, ◌+◌, ◌*◌, ◌/◌, ◌%◌, ◌≤◌, ◌<◌, ℤ, pos, ◌+ℤ◌, ◌/ℤ◌, ◌%ℤ◌, ◌≤ℤ◌, ltb_ℤ, ltb, sum_ℤ,
  sum_ℤ-nil, sum_ℤ-cons, Text, compare_text, List, [], ◌∷◌, length, length-sort, sort, All2, ok,
  arith, int_laws, ◌≡◌, refl, ap, ◌∙◌, Bool-cases, inl, inr, if◌then◌else◌,
}
use portfolio_rebalancer.Domain.{basis_point_scale}
use portfolio_rebalancer.Domain.WithinAsset.{
  ResolvedWithinAssetInstrument, ResolvedWithinAssetAllocation, equal_points,
  resolve_equal_within_asset_points,
}

equal_guards :
    (keys : List Text) {r : ResolvedWithinAssetAllocation}
    → resolve_equal_within_asset_points keys ≡ ok r
    → (0 < length (sort compare_text keys))
      × (r.instruments
          ≡ equal_points
              (basis_point_scale /ℤ pos (length (sort compare_text keys)))
              (basis_point_scale %ℤ pos (length (sort compare_text keys)))
              0
              (sort compare_text keys))
unfolding resolve_equal_within_asset_points
equal_guards keys h = ground arith

-- How many of the indices from the first on, one for each key, lie below the bound.
below : ℕ → ℕ → List Text → ℕ
below bound index [] = 0
below bound index (key ∷ keys) = (if ltb index bound then 1 else 0) + below bound (suc index) keys

below_none : (bound index : ℕ) (keys : List Text) → bound ≤ index → below bound index keys ≡ 0
unfolding below
below_none bound index [] h = refl
below_none bound index (key ∷ keys) h = ground (arith, below_none bound (suc index) keys)

below-all :
    (bound index : ℕ) (keys : List Text)
    → index ≤ bound
    → bound ≤ index + length keys
    → below bound index keys + index ≡ bound
unfolding below
below-all bound index [] h k = omega arith
below-all bound index (key ∷ keys) h k =
    ground (arith, below-all bound (suc index) keys, below_none bound (suc index) keys)

points-total :
    (base bound index : ℕ) (keys : List Text)
    → sum_ℤ (λ i. i.within_asset_points) (equal_points (pos base) (pos bound) index keys)
      ≡ pos (length keys * base + below bound index keys)
unfolding equal_points below ◌+ℤ◌
points-total base bound index [] =
    sum_ℤ-nil (λ (i : ResolvedWithinAssetInstrument). i.within_asset_points) ∙ ap pos (omega arith)
points-total base bound index (key ∷ keys) =
    rw
      (
        sum_ℤ-cons (λ (i : ResolvedWithinAssetInstrument). i.within_asset_points) _
            (equal_points (pos base) (pos bound) (suc index) keys),
        points-total base bound (suc index) keys,
      )
      (ground arith)

-- An instrument's points: the common base, or one more.
abbrev pub IsEven : ℤ → Text → ResolvedWithinAssetInstrument → Type 0
IsEven base key i =
    (i.instrument_key ≡ key)
    × (base ≤ℤ i.within_asset_points)
    × (i.within_asset_points ≤ℤ base +ℤ pos 1)

points-IsEven :
    (base bound : ℤ) (index : ℕ) (keys : List Text)
    → All2 (IsEven base) keys (equal_points base bound index keys)
unfolding equal_points
points-IsEven base bound index [] = tt
points-IsEven base bound index (key ∷ keys) = elim (Bool-cases (ltb_ℤ (pos index) bound)) [
  | inl early ↦
      rw early ((refl, omega int_laws, omega int_laws), points-IsEven base bound (suc index) keys)
  | inr late ↦
      rw late ((refl, omega int_laws, omega int_laws), points-IsEven base bound (suc index) keys)
]

remainder-lt : (n : ℕ) → 0 < n → 10000 % n < n
remainder-lt n h = mod-lt 10000 h

division : (n r : ℕ) → 0 < n → r ≡ 10000 % n → n * (10000 / n) + r ≡ 10000
division n r h e = rw e (div-add-mod 10000 n)

even-total :
    (keys : List Text)
    → 0 < length keys
    → sum_ℤ
        (λ i. i.within_asset_points)
        (equal_points
          (basis_point_scale /ℤ pos (length keys))
          (basis_point_scale %ℤ pos (length keys))
          0
          keys)
      ≡ basis_point_scale
unfolding ◌/ℤ◌ ◌%ℤ◌
even-total keys h =
    let n = length keys in
    points-total (10000 / n) (10000 % n) 0 keys
    ∙ ap pos (
        division n (below (10000 % n) 0 keys) h (
          omega
            (arith, below-all (10000 % n) 0 keys (omega arith) (omega (arith, remainder-lt n h)))))

-- Whenever points are divided equally, they add up to exactly 10000; the instruments are listed in
-- the order of their keys; and any two of them differ by one point at most, since each has the same
-- base or one point more.
pub equal_exact :
    (keys : List Text) {r : ResolvedWithinAssetAllocation}
    → resolve_equal_within_asset_points keys ≡ ok r
    → (sum_ℤ (λ i. i.within_asset_points) r.instruments ≡ basis_point_scale)
      × All2
          (IsEven (basis_point_scale /ℤ pos (length keys)))
          (sort compare_text keys)
          r.instruments
equal_exact keys h =
    let (nonempty, result) = equal_guards keys h in
    rw (result, ← length-sort compare_text keys)
      (
        even-total (sort compare_text keys) nonempty,
        points-IsEven (basis_point_scale /ℤ pos (length (sort compare_text keys)))
            (basis_point_scale %ℤ pos (length (sort compare_text keys))) 0 (sort compare_text keys),
      )
