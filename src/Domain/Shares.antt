-- ===== src/Domain/Shares.antt =====
-- The largest-remainder method that packages/domain/src/rebalance.ts (`allocateExactTargetValues`)
-- and packages/domain/src/within-asset-allocation.ts (`resolvePreserveCurrentWithinAssetPoints`)
-- both write out: quotients rounded down, and one unit more for the largest remainders.
pub mod Exact
use portfolio_rebalancer.Prelude.{
  ℕ, suc, ◌-◌, ℤ, pos, negsuc, ◌+ℤ◌, ◌-ℤ◌, ltb_ℤ, eq_ℤ, sum_ℤ, Text, compare_text, contains, set_of,
  sort, List, map, length, take, Ordering, or_else, if◌then◌else◌,
}

-- An entry of the array `provisional`.
pub record Provisional : Type 0 where
  pub id : Text
  pub value : ℤ
  pub remainder : ℤ

-- `compareBigIntDescending`, as the sign of its result.
unfoldable pub compare_descending : ℤ → ℤ → Ordering
compare_descending left right =
    if eq_ℤ left right then Ordering.eq else if ltb_ℤ right left then Ordering.lt else Ordering.gt

unfoldable pub by_remainder : Provisional → Provisional → Ordering
unfolding compare_descending
by_remainder left right =
    or_else (compare_descending left.remainder right.remainder) (compare_text left.id right.id)

-- `xs.slice(0, Number(n))`, which counts a negative end from the back.
unfoldable pub slice_to {ℓ} : {A : Type ℓ} → ℤ → List A → List A
slice_to (pos n) xs = take n xs
slice_to (negsuc n) xs = take (length xs - suc n) xs

-- `bonusIds`
unfoldable pub bonus_ids : ℤ → List Provisional → List Text
unfolding by_remainder slice_to
bonus_ids remaining provisional =
    set_of (map (λ item. item.id) (slice_to remaining (sort by_remainder provisional)))

-- `value + (bonusIds.has(id) ? 1n : 0n)`
unfoldable pub award : List Text → Provisional → ℤ
award bonus item = item.value +ℤ (if contains bonus item.id then pos 1 else pos 0)
