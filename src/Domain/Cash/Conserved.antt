-- ===== src/Domain/Cash/Conserved.antt =====
-- No cash is made or lost, and no candidate gets more than it needs.
use portfolio_rebalancer.Prelude.{
  ℤ, pos, ◌+ℤ◌, ◌-ℤ◌, ◌≤ℤ◌, ltb_ℤ, ltb_ℤ-false_iff, int_laws, sum_ℤ, is_blank, Distinct, List, [],
  map, any, any_iff, All, All-map, All-sort, All2, ok, >>=-eq-ok, throw_if, throw_if-ok, map_ok,
  ok-injective, ◌≡◌, refl, sym, subst, ◌∙◌, ◌↔◌, false,
}
use portfolio_rebalancer.Domain.{cash_candidate, negative_cash, negative_need}
use portfolio_rebalancer.Domain.Rebalance.{validate_unique_ids, get_required_map_value}
use portfolio_rebalancer.Domain.Rebalance.Valid.{unique_ids_iff}
use portfolio_rebalancer.Domain.Cash.{
  CashPriorityCandidate, CashAllocation, SpendableCashAllocation, by_need, allocate_spendable_cash,
}
use portfolio_rebalancer.Domain.Cash.Entries.{
  left_over, fill-eq, grants-total, Serves, entries-Serve,
}
use portfolio_rebalancer.Domain.Cash.Lookup.{queue, by_id, answers}

-- The cash and the needs are not negative, and the identifiers are neither blank nor repeated.
pub record IsAllocatable (candidates : List CashPriorityCandidate) (cash : ℤ) : Type 0 where
  pub cash_nonnegative : pos 0 ≤ℤ cash
  pub named : All (λ id. is_blank id ≡ false) (map (λ c. c.id) candidates)
  pub distinct : Distinct (map (λ c. c.id) candidates)
  pub needs_nonnegative : All (λ c. pos 0 ≤ℤ c.requested_minor) candidates

guards :
    (candidates : List CashPriorityCandidate) (cash : ℤ) {r : SpendableCashAllocation}
    → allocate_spendable_cash candidates cash ≡ ok r
    → (ltb_ℤ cash (pos 0) ≡ false)
      × (validate_unique_ids cash_candidate (map (λ c. c.id) candidates) ≡ ok tt)
      × (any (λ c. ltb_ℤ c.requested_minor (pos 0)) candidates ≡ false)
unfolding allocate_spendable_cash
guards candidates cash h =
    let (u, first, rest) = >>=-eq-ok (throw_if (ltb_ℤ cash (pos 0)) negative_cash) _ h in
    let (w, second, more) =
      >>=-eq-ok (validate_unique_ids cash_candidate (map (λ c. c.id) candidates)) _ rest in
    let (z, third, last) =
      >>=-eq-ok (throw_if (any (λ c. ltb_ℤ c.requested_minor (pos 0)) candidates) negative_need) _
        more in
    (throw_if-ok _ negative_cash first, second, throw_if-ok _ negative_need third)

pub ok→IsAllocatable :
    (candidates : List CashPriorityCandidate) (cash : ℤ) {r : SpendableCashAllocation}
    → allocate_spendable_cash candidates cash ≡ ok r
    → IsAllocatable candidates cash
ok→IsAllocatable candidates cash h =
    let (cash_ok, ids_ok, needs_ok) = guards candidates cash h in
    let (named, distinct) = (unique_ids_iff cash_candidate (map (λ c. c.id) candidates)).0 ids_ok in
    record {
      cash_nonnegative = (ltb_ℤ-false_iff cash (pos 0)).0 cash_ok;
      named = named;
      distinct = distinct;
      needs_nonnegative =
          All-map (λ c. (ltb_ℤ-false_iff c.requested_minor (pos 0)).0) candidates
            ((any_iff (λ c. ltb_ℤ c.requested_minor (pos 0)) candidates).0 needs_ok);
    }

-- On such input the call returns the answers of `byId`.
pub allocatable-ok :
    (candidates : List CashPriorityCandidate) (cash : ℤ) {found : List CashAllocation}
    → IsAllocatable candidates cash
    → map_ok (λ c. get_required_map_value (by_id cash candidates) c.id) candidates ≡ ok found
    → allocate_spendable_cash candidates cash
      ≡ ok (record {
        spendable_cash_minor = cash;
        allocated_minor = cash -ℤ left_over cash (queue candidates);
        remaining_cash_minor = left_over cash (queue candidates);
        allocations = found;
      })
unfolding allocate_spendable_cash
allocatable-ok candidates cash v e =
    rw
      (
        (ltb_ℤ-false_iff cash (pos 0)).1 v.cash_nonnegative,
        (unique_ids_iff cash_candidate (map (λ c. c.id) candidates)).1 (v.named, v.distinct),
        (any_iff (λ c. ltb_ℤ c.requested_minor (pos 0)) candidates).1 (
            All-map (λ c. (ltb_ℤ-false_iff c.requested_minor (pos 0)).1) candidates
              v.needs_nonnegative),
        fill-eq cash [] (queue candidates),
        e,
      )
      refl

-- What a returned allocation is: cash and amounts add up, and each candidate in turn is served.
pub record IsConserved (candidates : List CashPriorityCandidate) (cash : ℤ)
    (r : SpendableCashAllocation) : Type 0 where
  pub same_cash : r.spendable_cash_minor ≡ cash
  pub balanced : r.allocated_minor +ℤ r.remaining_cash_minor ≡ cash
  pub no_overdraft : pos 0 ≤ℤ r.remaining_cash_minor
  pub accounted : sum_ℤ (λ a. a.allocated_minor) r.allocations ≡ r.allocated_minor
  pub served : All2 Serves candidates r.allocations

difference : (s l cash : ℤ) → s +ℤ l ≡ cash → s ≡ cash -ℤ l
difference s l cash e = rw (← e) (omega int_laws)

pub returned :
    (candidates : List CashPriorityCandidate) (cash : ℤ)
    → IsAllocatable candidates cash
    → (r : SpendableCashAllocation) × (allocate_spendable_cash candidates cash ≡ ok r)
      × IsConserved candidates cash r
returned candidates cash v =
    let ready = All-sort by_need (λ c. pos 0 ≤ℤ c.requested_minor) candidates v.needs_nonnegative in
    let (serve, left) = entries-Serve cash (queue candidates) v.cash_nonnegative ready in
    let (found, e, served, total) = answers cash candidates v.distinct Serves serve in
    (
      record {
        spendable_cash_minor = cash;
        allocated_minor = cash -ℤ left_over cash (queue candidates);
        remaining_cash_minor = left_over cash (queue candidates);
        allocations = found;
      },
      allocatable-ok candidates cash v e,
      record {
        same_cash = refl;
        balanced = omega int_laws;
        no_overdraft = left;
        accounted =
            total
            ∙ difference _ (left_over cash (queue candidates)) cash
                (grants-total cash (queue candidates));
        served = served;
      },
    )

-- Whenever cash is allocated, what is allocated and what remains make up the spendable cash; nothing
-- is overdrawn; the answers add up to the allocated amount; and each candidate, in the order in
-- which the candidates were given, has one answer with its identifier and its need, of which from
-- nothing to all is allocated and the rest remains.
pub cash-IsConserved :
    (candidates : List CashPriorityCandidate) (cash : ℤ) {r : SpendableCashAllocation}
    → allocate_spendable_cash candidates cash ≡ ok r
    → IsConserved candidates cash r
cash-IsConserved candidates cash h =
    let (s, e, conserved) = returned candidates cash (ok→IsAllocatable candidates cash h) in
    subst (IsConserved candidates cash) (ok-injective (sym e ∙ h)) conserved

-- The call returns exactly when the cash and every need are not negative, and the identifiers are
-- neither blank nor repeated.
pub allocate_returns_iff :
    (candidates : List CashPriorityCandidate) (cash : ℤ)
    → ((r : SpendableCashAllocation) × (allocate_spendable_cash candidates cash ≡ ok r))
      ↔ IsAllocatable candidates cash
allocate_returns_iff candidates cash = (
  λ (r, h). ok→IsAllocatable candidates cash h,
  λ v. let (r, e, c) = returned candidates cash v in (r, e),
)
