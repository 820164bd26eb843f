-- ===== src/Domain/Cash/Lookup.antt =====
-- `byId` gives each candidate the allocation that the loop wrote for it.
use portfolio_rebalancer.Prelude.{
  ℤ, pos, ◌-ℤ◌, sum_ℤ, sum_ℤ-All2, sum-sort, Text, Distinct, TextMap, map_get, map_from,
  map_get-from, List, [], ◌∷◌, map, map-map_lem, All, All-to_map, All2, All2-map, All2-left,
  map_ok-All2, map_ok, sort, sort-All, Distinct-sort, Option, none, some, ok, ◌≡◌, refl, sym, ap,
  ◌∙◌,
}
use portfolio_rebalancer.Domain.Rebalance.{get_required_map_value}
use portfolio_rebalancer.Domain.Cash.{CashPriorityCandidate, CashAllocation, by_need, grant}
use portfolio_rebalancer.Domain.Cash.Entries.{entries, keyed}

ids-entries :
    (cash : ℤ) (cs : List CashPriorityCandidate)
    → map (λ a. a.id) (entries cash cs) ≡ map (λ c. c.id) cs
ids-entries cash [] = refl
ids-entries cash (c ∷ cs) = ap (λ r. c.id ∷ r) (ids-entries (cash -ℤ grant cash c) cs)

-- Each sorted candidate finds its entry in a map that holds every entry.
entries-found :
    (m : TextMap CashAllocation) (R : CashPriorityCandidate → CashAllocation → Type 0) (cash : ℤ)
    (cs : List CashPriorityCandidate)
    → All (λ a. map_get a.id m ≡ some a) (entries cash cs)
    → All2 R cs (entries cash cs)
    → All2 (λ c a. (map_get c.id m ≡ some a) × R c a) cs (entries cash cs)
entries-found m R cash [] h k = tt
entries-found m R cash (c ∷ cs) h k =
    ((h.0, k.0), entries-found m R (cash -ℤ grant cash c) cs h.1 k.1)

abbrev amount_of : Option CashAllocation → ℤ
amount_of none = pos 0
amount_of (some a) = a.allocated_minor

abbrev pub queue : List CashPriorityCandidate → List CashPriorityCandidate
queue candidates = sort by_need candidates

abbrev pub by_id : ℤ → List CashPriorityCandidate → TextMap CashAllocation
by_id cash candidates = map_from [] (map keyed (entries cash (queue candidates)))

module _ (cash : ℤ) (candidates : List CashPriorityCandidate)
    (distinct : Distinct (map (λ c. c.id) candidates)) where
  All-found :
      All (λ a. map_get a.id (by_id cash candidates) ≡ some a) (entries cash (queue candidates))
  All-found =
      let ids =
        map-map_lem (λ (e : Text × CashAllocation). e.0) keyed (entries cash (queue candidates)) in
      let queue_distinct = Distinct-sort by_need (λ c. c.id) candidates distinct in
      All-to_map _ keyed (entries cash (queue candidates)) (
        map_get-from [] (map keyed (entries cash (queue candidates)))
          (rw (ids, ids-entries cash (queue candidates)) queue_distinct))

  module _ (R : CashPriorityCandidate → CashAllocation → Type 0)
      (related : All2 R (queue candidates) (entries cash (queue candidates))) where
    paired :
        All2
          (λ c a. (map_get c.id (by_id cash candidates) ≡ some a) × R c a)
          (queue candidates)
          (entries cash (queue candidates))
    paired = entries-found (by_id cash candidates) R cash (queue candidates) All-found related

    -- Asked in their own order, the candidates get entries that stand in the same relation to them,
    -- and the amounts of the answers add up to those of the entries.
    pub answers :
        (answered : List CashAllocation) × (map_ok
            (λ c. get_required_map_value (by_id cash candidates) c.id)
            candidates
          ≡ ok answered)
        × All2 R candidates answered
        × (sum_ℤ (λ a. a.allocated_minor) answered
            ≡ sum_ℤ (λ a. a.allocated_minor) (entries cash (queue candidates)))
    unfolding get_required_map_value
    answers =
        let found =
          sort-All by_need
            (λ c.
              (a : CashAllocation) × (get_required_map_value (by_id cash candidates) c.id ≡ ok a)
              × ((map_get c.id (by_id cash candidates) ≡ some a) × R c a))
            candidates
            (All2-left (λ c a p. (a, rw p.0 refl, p)) (queue candidates)
              (entries cash (queue candidates)) paired) in
        let (answered, e, related') =
          map_ok-All2 (λ c. get_required_map_value (by_id cash candidates) c.id)
            (λ c a. (map_get c.id (by_id cash candidates) ≡ some a) × R c a) candidates found in
        let amount =
          λ (c : CashPriorityCandidate). amount_of (map_get c.id (by_id cash candidates)) in
        (
          answered,
          e,
          All2-map (λ c a p. p.1) candidates answered related',
          sym (
                sum_ℤ-All2 amount (λ a. a.allocated_minor) candidates answered
                  (All2-map (λ c a p. ap amount_of p.0) candidates answered related'))
              ∙ sym (sum-sort by_need amount candidates)
              ∙ sum_ℤ-All2 amount (λ a. a.allocated_minor) (queue candidates)
                  (entries cash (queue candidates))
                  (All2-map (λ c a p. ap amount_of p.0) (queue candidates)
                    (entries cash (queue candidates)) paired),
        )
