-- ===== src/Domain/Cash.antt =====
-- packages/domain/src/rebalance.ts, `allocateSpendableCash`: available cash goes to the largest
-- needs first.
pub mod Conserved
mod Entries
mod Lookup
pub mod Priority
mod Examples
use portfolio_rebalancer.Prelude.{
  ℤ, pos, ◌-ℤ◌, ltb_ℤ, Text, compare_text, TextMap, map_get, map_set, Bool, List, [], ◌∷◌, map, any,
  sort, Ordering, or_else, if◌then◌else◌, Result, ok, err, ◌>>=◌, ◌>>◌, throw_if, map_ok,
}
use portfolio_rebalancer.Domain.{cash_candidate, DomainError, negative_cash, negative_need}
use portfolio_rebalancer.Domain.Shares.{compare_descending}
use portfolio_rebalancer.Domain.Rebalance.{validate_unique_ids, get_required_map_value}

pub record CashPriorityCandidate : Type 0 where
  pub id : Text
  pub requested_minor : ℤ

pub record CashAllocation : Type 0 where
  pub id : Text
  pub requested_minor : ℤ
  pub allocated_minor : ℤ
  pub remaining_need_minor : ℤ

pub record SpendableCashAllocation : Type 0 where
  pub spendable_cash_minor : ℤ
  pub allocated_minor : ℤ
  pub remaining_cash_minor : ℤ
  pub allocations : List CashAllocation

unfoldable pub by_need : CashPriorityCandidate → CashPriorityCandidate → Ordering
by_need left right =
    or_else (compare_descending left.requested_minor right.requested_minor)
      (compare_text left.id right.id)

-- What a candidate gets while so much cash is left.
abbrev pub grant : ℤ → CashPriorityCandidate → ℤ
grant cash c = if ltb_ℤ c.requested_minor cash then c.requested_minor else cash

abbrev pub allocation_of : ℤ → CashPriorityCandidate → CashAllocation
allocation_of cash c = record {
  id = c.id;
  requested_minor = c.requested_minor;
  allocated_minor = grant cash c;
  remaining_need_minor = c.requested_minor -ℤ grant cash c;
}

-- The loop over the sorted candidates: the cash that is left, and `byId`.
unfoldable pub fill :
    ℤ → TextMap CashAllocation → List CashPriorityCandidate → ℤ × TextMap CashAllocation
fill cash by_id [] = (cash, by_id)
fill cash by_id (c ∷ cs) =
    fill (cash -ℤ grant cash c) (map_set c.id (allocation_of cash c) by_id) cs

unfoldable pub allocate_spendable_cash :
    List CashPriorityCandidate → ℤ → Result DomainError SpendableCashAllocation
unfolding by_need fill
allocate_spendable_cash candidates spendable = do
  throw_if (ltb_ℤ spendable (pos 0)) negative_cash
  validate_unique_ids cash_candidate (map (λ c. c.id) candidates)
  throw_if (any (λ c. ltb_ℤ c.requested_minor (pos 0)) candidates) negative_need
  let (remaining, by_id) = fill spendable [] (sort by_need candidates)
  allocations ← map_ok (λ c. get_required_map_value by_id c.id) candidates
  ok (record {
    spendable_cash_minor = spendable;
    allocated_minor = spendable -ℤ remaining;
    remaining_cash_minor = remaining;
    allocations = allocations;
  })
