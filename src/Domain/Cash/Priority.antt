-- ===== src/Domain/Cash/Priority.antt =====
-- Larger needs come first.
use portfolio_rebalancer.Prelude.{
  ℤ, pos, ◌-ℤ◌, ◌≤ℤ◌, ltb_ℤ, ltb_ℤ-false_iff, int_laws, List, [], ◌∷◌, All, All-map, All-zip,
  All-All, All2, All2-right, All-sort, IsSorted, sort-IsSorted, is_lt, ok, ok-injective, arith, ◌≡◌,
  refl, sym, ◌∙◌, ◌⊎◌, inl, inr, true, false, Bool-cases,
}
use portfolio_rebalancer.Domain.Shares.{compare_descending}
use portfolio_rebalancer.Domain.Cash.{
  CashPriorityCandidate, CashAllocation, SpendableCashAllocation, by_need, grant, allocation_of,
  allocate_spendable_cash,
}
use portfolio_rebalancer.Domain.Cash.Entries.{entries, left_over}
use portfolio_rebalancer.Domain.Cash.Lookup.{queue, answers}
use portfolio_rebalancer.Domain.Cash.Conserved.{ok→IsAllocatable, allocatable-ok}

-- The second need is not larger.
abbrev AtLeast : CashPriorityCandidate → CashPriorityCandidate → Type 0
AtLeast x y = y.requested_minor ≤ℤ x.requested_minor

before→AtLeast : (x y : CashPriorityCandidate) → is_lt (by_need y x) ≡ true → AtLeast y x
unfolding by_need compare_descending
before→AtLeast x y h = ground arith

after→AtLeast : (x y : CashPriorityCandidate) → is_lt (by_need y x) ≡ false → AtLeast x y
unfolding by_need compare_descending
after→AtLeast x y h = ground arith

queue-IsSorted : (candidates : List CashPriorityCandidate) → IsSorted AtLeast (queue candidates)
queue-IsSorted candidates =
    sort-IsSorted AtLeast by_need (λ x y z p q. omega arith) before→AtLeast after→AtLeast candidates

-- Of two allocations the first is complete, or the second is empty or asks for as much.
abbrev pub IsFair : CashAllocation → CashAllocation → Type 0
IsFair x y =
    (x.remaining_need_minor ≡ pos 0)
    ⊎ (y.allocated_minor ≡ pos 0)
    ⊎ (x.requested_minor ≤ℤ y.requested_minor)

grant_cases :
    (cash : ℤ) (c : CashPriorityCandidate)
    → (c.requested_minor -ℤ grant cash c ≡ pos 0) ⊎ (cash -ℤ grant cash c ≡ pos 0)
grant_cases cash c = elim (Bool-cases (ltb_ℤ c.requested_minor cash)) [
  | inl less ↦ inl (rw less (omega int_laws))
  | inr more ↦ inr (rw more (omega int_laws))
]

-- Once the cash is gone nobody gets anything.
spent-entries :
    (cs : List CashPriorityCandidate)
    → All (λ c. pos 0 ≤ℤ c.requested_minor) cs
    → All (λ a. a.allocated_minor ≡ pos 0) (entries (pos 0) cs) × (left_over (pos 0) cs ≡ pos 0)
spent-entries [] h = (tt, refl)
spent-entries (c ∷ cs) h =
    let none_left : grant (pos 0) c ≡ pos 0 =
      rw ((ltb_ℤ-false_iff c.requested_minor (pos 0)).1 h.0) refl in
    let still : pos 0 -ℤ grant (pos 0) c ≡ pos 0 = rw none_left (omega int_laws) in
    let (ih, left) = spent-entries cs h.1 in ((none_left, rw still ih), rw still left)

requested-entries :
    (k cash : ℤ) (cs : List CashPriorityCandidate)
    → All (λ c. c.requested_minor ≤ℤ k) cs
    → All (λ a. a.requested_minor ≤ℤ k) (entries cash cs)
requested-entries k cash [] h = tt
requested-entries k cash (c ∷ cs) h = (h.0, requested-entries k (cash -ℤ grant cash c) cs h.1)

All-cons :
    (e : CashAllocation) (es : List CashAllocation)
    → All (λ x. x.requested_minor ≤ℤ e.requested_minor) es
    → All (λ x. All (IsFair x) es) es
    → All (λ x. All (IsFair x) (e ∷ es)) es
All-cons e es low fair = All-zip (λ x l f. (inr (inr l), f)) es low fair

entries-IsFair :
    (cash : ℤ) (cs : List CashPriorityCandidate)
    → All (λ c. pos 0 ≤ℤ c.requested_minor) cs
    → IsSorted AtLeast cs
    → All (λ x. All (IsFair x) (entries cash cs)) (entries cash cs)
entries-IsFair cash [] h s = tt
entries-IsFair cash (c ∷ cs) h s =
    let rest = entries (cash -ℤ grant cash c) cs in
    let head : CashAllocation = allocation_of cash c in
    let against : All (IsFair head) rest = elim (grant_cases cash c) [
      | inl complete ↦ All-All (λ y. inl complete) rest
      | inr spent ↦ rw spent (All-map (λ y z. inr (inl z)) _ (spent-entries cs h.1).0)
    ] in
    (
      (inr (inr (omega arith)), against),
      All-cons head rest (requested-entries c.requested_minor (cash -ℤ grant cash c) cs s.0)
          (entries-IsFair (cash -ℤ grant cash c) cs h.1 s.1),
    )

-- Cash remains only when every need is met.
entries_complete :
    (cash : ℤ) (cs : List CashPriorityCandidate)
    → All (λ c. pos 0 ≤ℤ c.requested_minor) cs
    → All (λ a. (a.remaining_need_minor ≡ pos 0) ⊎ (left_over cash cs ≡ pos 0)) (entries cash cs)
entries_complete cash [] h = tt
entries_complete cash (c ∷ cs) h = (
  (elim (grant_cases cash c) [
    | inl complete ↦ inl complete
    | inr spent ↦ inr (rw spent (spent-entries cs h.1).1)
  ]),
  entries_complete (cash -ℤ grant cash c) cs h.1,
)

entries-All2 :
    (P : CashAllocation → Type 0) (cash : ℤ) (cs : List CashPriorityCandidate)
    → All P (entries cash cs)
    → All2 (λ c a. P a) cs (entries cash cs)
entries-All2 P cash [] h = tt
entries-All2 P cash (c ∷ cs) h = (h.0, entries-All2 P (cash -ℤ grant cash c) cs h.1)

module _ (candidates : List CashPriorityCandidate) (cash : ℤ) {r : SpendableCashAllocation}
    (h : allocate_spendable_cash candidates cash ≡ ok r) where
  -- What holds of every entry of the loop holds of every answer.
  transfer :
      (P : CashAllocation → Type 0)
      → All P (entries cash (queue candidates))
      → All P r.allocations × (r.remaining_cash_minor ≡ left_over cash (queue candidates))
  transfer P all =
      let v = ok→IsAllocatable candidates cash h in
      let (found, e, related, total) =
        answers cash candidates v.distinct (λ c a. P a)
          (entries-All2 P cash (queue candidates) all) in
      rw (ok-injective (sym h ∙ allocatable-ok candidates cash v e))
        (All2-right (λ c a p. p) candidates found related, refl)

  -- Whenever cash is allocated, of any two answers the first is complete, or the second got nothing,
  -- or the second asked for at least as much: a smaller need gets cash only after every larger need
  -- is met. And cash remains only if every need is met.
  pub larger_needs_first :
      All (λ x. All (IsFair x) r.allocations) r.allocations
      × All (λ x. (x.remaining_need_minor ≡ pos 0) ⊎ (r.remaining_cash_minor ≡ pos 0)) r.allocations
  larger_needs_first =
      let v = ok→IsAllocatable candidates cash h in
      let ready =
        All-sort by_need (λ c. pos 0 ≤ℤ c.requested_minor) candidates v.needs_nonnegative in
      let fair = entries-IsFair cash (queue candidates) ready (queue-IsSorted candidates) in
      let (complete, left) = transfer _ (entries_complete cash (queue candidates) ready) in
      (
        All-map (λ x f. (transfer (IsFair x) f).0) r.allocations
            (transfer (λ x. All (IsFair x) (entries cash (queue candidates))) fair).0,
        rw left complete,
      )
