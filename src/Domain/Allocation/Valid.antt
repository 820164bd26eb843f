-- ===== src/Domain/Allocation/Valid.antt =====
-- Which portfolios `calculateAllocationSnapshot` accepts, and what it then returns.
use portfolio_rebalancer.Prelude.{
  ℤ, All2, refl, ◌-ℤ◌, ◌*ℤ◌, ◌/ℤ◌, [], ◌∷◌, pos, ◌≤ℤ◌, ◌<ℤ◌, leb_ℤ, eq_ℤ, sum_ℤ, Text, is_blank,
  Distinct, length-set_of_iff, true, false, List, map, length, any, All, any_iff, All-map, ok,
  arith, ◌≡◌, ◌↔◌, ◌<◌,
}
use portfolio_rebalancer.Domain.{basis_point_scale}
use portfolio_rebalancer.Domain.Allocation.{
  AllocationInput, AllocationResult, AllocationSnapshot, has_repeats, is_negative_asset, to_result,
  calculate_allocation_snapshot,
}

-- A portfolio that can be evaluated.
pub record IsEvaluable (inputs : List AllocationInput) : Type 0 where
  pub nonempty : 0 < length inputs
  pub named : any is_blank (map (λ item. item.id) inputs) ≡ false
  pub distinct : Distinct (map (λ item. item.id) inputs)
  pub nonnegative :
      All (λ item. (pos 0 ≤ℤ item.value_minor) × (pos 0 ≤ℤ item.target_basis_points)) inputs
  pub full_target : sum_ℤ (λ item. item.target_basis_points) inputs ≡ basis_point_scale
  pub positive : pos 0 <ℤ sum_ℤ (λ item. item.value_minor) inputs

abbrev pub snapshot_of : List AllocationInput → AllocationSnapshot
snapshot_of inputs =
    let total = sum_ℤ (λ item. item.value_minor) inputs in
    record { total_value_minor = total; allocations = map (to_result total) inputs }

pub not-has_repeats_iff : (ids : List Text) → (has_repeats ids ≡ false) ↔ Distinct ids
not-has_repeats_iff ids = (
  λ h. (length-set_of_iff ids).0 (ground arith),
  λ d. ground (arith, (length-set_of_iff ids).1 d),
)

not-negative_iff :
    (item : AllocationInput)
    → (is_negative_asset item ≡ false)
      ↔ ((pos 0 ≤ℤ item.value_minor) × (pos 0 ≤ℤ item.target_basis_points))
not-negative_iff item = ground arith

snapshot_guards :
    (inputs : List AllocationInput) {s : AllocationSnapshot}
    → calculate_allocation_snapshot inputs ≡ ok s
    → (0 < length inputs)
      × (any is_blank (map (λ item. item.id) inputs) ≡ false)
      × (has_repeats (map (λ item. item.id) inputs) ≡ false)
      × (any is_negative_asset inputs ≡ false)
      × (eq_ℤ (sum_ℤ (λ item. item.target_basis_points) inputs) basis_point_scale ≡ true)
      × (leb_ℤ (sum_ℤ (λ item. item.value_minor) inputs) (pos 0) ≡ false)
      × (s ≡ snapshot_of inputs)
unfolding calculate_allocation_snapshot
snapshot_guards inputs h = ground arith

pub snapshot_ok→IsEvaluable :
    (inputs : List AllocationInput) {s : AllocationSnapshot}
    → calculate_allocation_snapshot inputs ≡ ok s
    → IsEvaluable inputs × (s ≡ snapshot_of inputs)
snapshot_ok→IsEvaluable inputs h =
    let (nonempty, named, repeats, negatives, target, empty, result) = snapshot_guards inputs h in
    (
      record {
        nonempty = nonempty;
        named = named;
        distinct = (not-has_repeats_iff _).0 repeats;
        nonnegative =
            All-map (λ item. (not-negative_iff item).0) inputs
              ((any_iff is_negative_asset inputs).0 negatives);
        full_target = ground arith;
        positive = ground arith;
      },
      result,
    )

pub IsEvaluable→snapshot_ok :
    (inputs : List AllocationInput)
    → IsEvaluable inputs
    → calculate_allocation_snapshot inputs ≡ ok (snapshot_of inputs)
unfolding calculate_allocation_snapshot
IsEvaluable→snapshot_ok inputs v =
    let repeats = (not-has_repeats_iff (map (λ item. item.id) inputs)).1 v.distinct in
    let negatives =
      (any_iff is_negative_asset inputs).1
        (All-map (λ item. (not-negative_iff item).1) inputs v.nonnegative) in
    ground arith

-- The entry of an asset: its identifier, value and target; its value's share of the total in basis
-- points, rounded down; and how far that is above the target, or below it.
pub record IsEntry (total : ℤ) (item : AllocationInput) (r : AllocationResult) : Type 0 where
  pub same_id : r.id ≡ item.id
  pub same_value : r.value_minor ≡ item.value_minor
  pub same_target : r.target_basis_points ≡ item.target_basis_points
  pub share : r.current_basis_points ≡ item.value_minor *ℤ basis_point_scale /ℤ total
  pub drift : r.drift_basis_points ≡ r.current_basis_points -ℤ item.target_basis_points

to_result-IsEntry : (total : ℤ) (item : AllocationInput) → IsEntry total item (to_result total item)
unfolding to_result
to_result-IsEntry total item = record {
  same_id = refl;
  same_value = refl;
  same_target = refl;
  share = refl;
  drift = refl;
}

IsEntry-eq :
    (total : ℤ) (item : AllocationInput) (r : AllocationResult)
    → IsEntry total item r
    → r ≡ to_result total item
unfolding to_result
IsEntry-eq total item r e =
    let same_id = e.same_id in
    let same_value = e.same_value in
    let same_target = e.same_target in let share = e.share in let drift = e.drift in cc

entries-All2 :
    (total : ℤ) (items : List AllocationInput)
    → All2 (IsEntry total) items (map (to_result total) items)
entries-All2 total [] = tt
entries-All2 total (x ∷ xs) = (to_result-IsEntry total x, entries-All2 total xs)

entries-eq :
    (total : ℤ) (items : List AllocationInput) (rs : List AllocationResult)
    → All2 (IsEntry total) items rs
    → rs ≡ map (to_result total) items
entries-eq total [] [] h = refl
entries-eq total [] (r ∷ rs) h = elim h [ ]
entries-eq total (x ∷ xs) [] h = elim h [ ]
entries-eq total (x ∷ xs) (r ∷ rs) h =
    let first = IsEntry-eq total x r h.0 in let rest = entries-eq total xs rs h.1 in cc

-- What an evaluation says: the total, and the entry of each asset in turn.
abbrev pub IsEvaluation : List AllocationInput → AllocationSnapshot → Type 0
IsEvaluation inputs s =
    (s.total_value_minor ≡ sum_ℤ (λ item. item.value_minor) inputs)
    × All2 (IsEntry (sum_ℤ (λ item. item.value_minor) inputs)) inputs s.allocations

-- A portfolio is evaluated, with a given result, exactly when it has an asset, its identifiers are not
-- blank and not repeated, no value and no target is negative, the targets add up to 10000 basis points
-- and the values to more than 0; and the result has the total and, for each asset in turn, its
-- identifier, value and target, its share of the total in basis points, rounded down, and that share
-- less the target.
pub snapshot_iff :
    (inputs : List AllocationInput) (s : AllocationSnapshot)
    → (calculate_allocation_snapshot inputs ≡ ok s) ↔ (IsEvaluable inputs × IsEvaluation inputs s)
snapshot_iff inputs s =
    let total = sum_ℤ (λ (item : AllocationInput). item.value_minor) inputs in
    (
      λ h.
          let (v, e) = snapshot_ok→IsEvaluable inputs h in
          (v, rw e (refl, entries-All2 total inputs)),
      λ (v, (same_total, entries)).
          let e : s ≡ snapshot_of inputs =
            (let all = entries-eq total inputs s.allocations entries in cc) in
          rw e (IsEvaluable→snapshot_ok inputs v),
    )
