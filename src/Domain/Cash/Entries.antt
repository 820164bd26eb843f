-- ===== src/Domain/Cash/Entries.antt =====
-- What the loop of `allocateSpendableCash` writes, one entry for each candidate in its order.
use portfolio_rebalancer.Prelude.{
  ℤ, pos, ◌+ℤ◌, ◌-ℤ◌, ◌≤ℤ◌, ltb_ℤ, ltb_ℤ_iff, ltb_ℤ-false_iff, int_laws, +ℤ_assoc, All2, sum_ℤ,
  sum_ℤ-nil, sum_ℤ-cons, Text, TextMap, map_set, map_from, List, [], ◌∷◌, map, All, ◌≡◌, refl,
  Bool-cases, inl, inr,
}
use portfolio_rebalancer.Domain.Cash.{
  CashPriorityCandidate, CashAllocation, grant, allocation_of, fill,
}

-- The entries that the loop writes, in its order.
abbrev pub entries : ℤ → List CashPriorityCandidate → List CashAllocation
entries cash [] = []
entries cash (c ∷ cs) = allocation_of cash c ∷ entries (cash -ℤ grant cash c) cs

abbrev pub left_over : ℤ → List CashPriorityCandidate → ℤ
left_over cash [] = cash
left_over cash (c ∷ cs) = left_over (cash -ℤ grant cash c) cs

abbrev pub keyed : CashAllocation → Text × CashAllocation
keyed a = (a.id, a)

-- The loop ends with the cash that its grants leave, and a map of its entries.
pub fill-eq :
    (cash : ℤ) (by_id : TextMap CashAllocation) (cs : List CashPriorityCandidate)
    → fill cash by_id cs ≡ (left_over cash cs, map_from by_id (map keyed (entries cash cs)))
unfolding fill map_from
fill-eq cash by_id [] = refl
fill-eq cash by_id (c ∷ cs) =
    fill-eq (cash -ℤ grant cash c) (map_set c.id (allocation_of cash c) by_id) cs

pub grants-total :
    (cash : ℤ) (cs : List CashPriorityCandidate)
    → sum_ℤ (λ a. a.allocated_minor) (entries cash cs) +ℤ left_over cash cs ≡ cash
grants-total cash [] = rw (sum_ℤ-nil (λ (a : CashAllocation). a.allocated_minor)) (omega int_laws)
grants-total cash (c ∷ cs) =
    let ih = grants-total (cash -ℤ grant cash c) cs in
    rw
      (sum_ℤ-cons (λ (a : CashAllocation). a.allocated_minor) (allocation_of cash c)
        (entries (cash -ℤ grant cash c) cs))
      (rw
        (
          +ℤ_assoc (grant cash c)
              (sum_ℤ (λ (a : CashAllocation). a.allocated_minor)
                (entries (cash -ℤ grant cash c) cs))
              (left_over (cash -ℤ grant cash c) cs),
          ih,
        )
        (omega int_laws))

-- What one allocation does for its candidate.
abbrev pub Serves : CashPriorityCandidate → CashAllocation → Type 0
Serves c a =
    (a.id ≡ c.id)
    × (a.requested_minor ≡ c.requested_minor)
    × (pos 0 ≤ℤ a.allocated_minor)
    × (a.allocated_minor ≤ℤ c.requested_minor)
    × (a.allocated_minor +ℤ a.remaining_need_minor ≡ c.requested_minor)

grant_range :
    (cash : ℤ) (c : CashPriorityCandidate)
    → pos 0 ≤ℤ cash
    → pos 0 ≤ℤ c.requested_minor
    → (pos 0 ≤ℤ grant cash c)
      × (grant cash c ≤ℤ c.requested_minor)
      × (pos 0 ≤ℤ cash -ℤ grant cash c)
grant_range cash c h k = elim (Bool-cases (ltb_ℤ c.requested_minor cash)) [
  | inl less ↦ rw less (
      let l = (ltb_ℤ_iff c.requested_minor cash).0 less in
      (omega int_laws, omega int_laws, omega int_laws))
  | inr more ↦ rw more (
      let l = (ltb_ℤ-false_iff c.requested_minor cash).0 more in
      (omega int_laws, omega int_laws, omega int_laws))
]

pub entries-Serve :
    (cash : ℤ) (cs : List CashPriorityCandidate)
    → pos 0 ≤ℤ cash
    → All (λ c. pos 0 ≤ℤ c.requested_minor) cs
    → All2 Serves cs (entries cash cs) × (pos 0 ≤ℤ left_over cash cs)
entries-Serve cash [] h k = (tt, h)
entries-Serve cash (c ∷ cs) h k =
    let (low, high, rest) = grant_range cash c h k.0 in
    let (ih, left) = entries-Serve (cash -ℤ grant cash c) cs rest k.1 in
    (((refl, refl, low, high, omega int_laws), ih), left)
