-- ===== src/Domain/Cash/Examples.antt =====
-- Three candidates for cash, and the theorems applied to them.
use portfolio_rebalancer.Prelude.{
  pos, ◌+ℤ◌, ◌-ℤ◌, sort, insert, text, text_eq, compare_text, contains, set_of, set_from, map_get,
  map_set, map_from, map_ok, for_each, List, [], ◌∷◌, All, ok, ◌≡◌, refl, ◌↔◌, ◌⊎◌,
}
use portfolio_rebalancer.Domain.Shares.{compare_descending}
use portfolio_rebalancer.Domain.Rebalance.{
  validate_unique_ids, validate_non_empty_id, get_required_map_value,
}
use portfolio_rebalancer.Domain.Cash.{
  CashPriorityCandidate, SpendableCashAllocation, allocate_spendable_cash, fill, by_need,
}
use portfolio_rebalancer.Domain.Cash.Conserved.{
  IsAllocatable, IsConserved, allocate_returns_iff, cash-IsConserved,
}
use portfolio_rebalancer.Domain.Cash.Priority.{IsFair, larger_needs_first}

abbrev candidates : List CashPriorityCandidate
candidates =
    record { id = text "a"; requested_minor = pos 30 }
    ∷ record { id = text "b"; requested_minor = pos 70 }
    ∷ record { id = text "c"; requested_minor = pos 50 }
    ∷ []

-- With 100 to spend, b gets all it needs, c gets the rest and a nothing.
abbrev answer : SpendableCashAllocation
answer = record {
  spendable_cash_minor = pos 100;
  allocated_minor = pos 100;
  remaining_cash_minor = pos 0;
  allocations =
      record {
        id = text "a";
        requested_minor = pos 30;
        allocated_minor = pos 0;
        remaining_need_minor = pos 30;
      }
      ∷ record {
        id = text "b";
        requested_minor = pos 70;
        allocated_minor = pos 70;
        remaining_need_minor = pos 0;
      }
      ∷ record {
        id = text "c";
        requested_minor = pos 50;
        allocated_minor = pos 30;
        remaining_need_minor = pos 20;
      }
      ∷ [];
}

computed : allocate_spendable_cash candidates (pos 100) ≡ ok answer
unfolding allocate_spendable_cash fill by_need compare_descending validate_unique_ids
    validate_non_empty_id get_required_map_value map_ok for_each map_from map_set map_get sort
    insert set_of set_from contains text_eq compare_text ◌+ℤ◌ ◌-ℤ◌
computed = refl

cash-IsConserved_example : IsConserved candidates (pos 100) answer
cash-IsConserved_example = cash-IsConserved candidates (pos 100) computed

allocate_returns_iff_example :
    ((r : SpendableCashAllocation) × (allocate_spendable_cash candidates (pos 100) ≡ ok r))
    ↔ IsAllocatable candidates (pos 100)
allocate_returns_iff_example = allocate_returns_iff candidates (pos 100)

larger_needs_first_example :
    All (λ x. All (IsFair x) answer.allocations) answer.allocations
    × All
        (λ x. (x.remaining_need_minor ≡ pos 0) ⊎ (answer.remaining_cash_minor ≡ pos 0))
        answer.allocations
larger_needs_first_example = larger_needs_first candidates (pos 100) computed
