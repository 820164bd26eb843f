-- ===== src/Domain/Shares/Exact.antt =====
-- The bonus units make up exactly for what rounding down lost.
use portfolio_rebalancer.Prelude.{
  ℕ, ◌≤◌, ◌≡◌, refl, sym, ap, ◌∙◌, arith, true, List, [], ◌∷◌, ◌++◌, map, length, take, drop,
  length-take, take-append-drop, All, All-map, ℤ, pos, ◌+ℤ◌, sum_ℤ, sum_ℤ-nil, sum_ℤ-cons,
  sum_ℤ-append, sum_ℤ-add, int_laws, Text, contains, set_of, contains-set_of, text_eq_refl,
  Distinct, Apart, Distinct-append, sort, length-sort, sum-sort, Distinct-sort, if◌then◌else◌, ◌≤ℤ◌,
  Bool-cases, inl, inr, ◌≡⟨◌⟩◌, ◌∎,
}
use portfolio_rebalancer.Domain.Shares.{Provisional, by_remainder, bonus_ids, award}

abbrev ids : List Provisional → List Text
ids = map (λ item. item.id)

abbrev bonus : List Text → Provisional → ℤ
bonus chosen item = if contains chosen item.id then pos 1 else pos 0

ids-append : (xs ys : List Provisional) → ids (xs ++ ys) ≡ ids xs ++ ids ys
ids-append [] ys = refl
ids-append (x ∷ xs) ys = ap (λ r. x.id ∷ r) (ids-append xs ys)

-- Each of the chosen gets one unit.
All-chosen :
    (chosen : List Text) (xs : List Provisional)
    → All (λ item. contains chosen item.id ≡ true) xs
    → sum_ℤ (bonus chosen) xs ≡ pos (length xs)
unfolding ◌+ℤ◌
All-chosen chosen [] h = sum_ℤ-nil (bonus chosen)
All-chosen chosen (x ∷ xs) h =
    rw (sum_ℤ-cons (bonus chosen) x xs, h.0, All-chosen chosen xs h.1) (ap pos (omega arith))

none-chosen :
    (chosen : List Text) (xs : List Provisional)
    → Apart chosen (ids xs)
    → sum_ℤ (bonus chosen) xs ≡ pos 0
unfolding ◌+ℤ◌
none-chosen chosen [] h = sum_ℤ-nil (bonus chosen)
none-chosen chosen (x ∷ xs) h =
    rw (sum_ℤ-cons (bonus chosen) x xs, h.0, none-chosen chosen xs h.1) refl

contains_self :
    (seen : List Text) (xs : List Provisional)
    → ((k : Text) → contains (ids xs) k ≡ true → contains seen k ≡ true)
    → All (λ item. contains seen item.id ≡ true) xs
unfolding contains
contains_self seen [] h = tt
contains_self seen (x ∷ xs) h =
    (h x.id (rw (text_eq_refl x.id) refl), contains_self seen xs (λ k e. h k (ground (arith, e))))

All-set_of : (taken : List Text) (xs : List Text) → Apart taken xs → Apart (set_of taken) xs
All-set_of taken xs h = All-map (λ x e. contains-set_of taken x ∙ e) xs h

module _ (k : ℕ) (xs : List Provisional) (enough : k ≤ length xs) (d : Distinct (ids xs)) where
  abbrev sorted : List Provisional
  sorted = sort by_remainder xs

  abbrev chosen : List Text
  chosen = set_of (ids (take k sorted))

  apart : Apart (ids (take k sorted)) (ids (drop k sorted))
  apart =
      let split : Distinct (ids (take k sorted) ++ ids (drop k sorted)) =
        rw (← ids-append (take k sorted) (drop k sorted), take-append-drop k sorted)
          (Distinct-sort by_remainder (λ item. item.id) xs d) in
      (Distinct-append (ids (take k sorted)) (ids (drop k sorted)) split).2

  sum-bonus : sum_ℤ (bonus chosen) xs ≡ pos k
  sum-bonus =
      sum_ℤ (bonus chosen) xs
      ≡⟨ sym (sum-sort by_remainder (bonus chosen) xs) ⟩ sum_ℤ (bonus chosen) sorted
      ≡⟨ ap (sum_ℤ (bonus chosen)) (sym (take-append-drop k sorted)) ⟩
        sum_ℤ (bonus chosen) (take k sorted ++ drop k sorted)
      ≡⟨ sum_ℤ-append (bonus chosen) (take k sorted) (drop k sorted) ⟩
        sum_ℤ (bonus chosen) (take k sorted) +ℤ sum_ℤ (bonus chosen) (drop k sorted)
      ≡⟨ rw
          (
            All-chosen chosen (take k sorted) (
                contains_self chosen (take k sorted)
                  (λ t e. contains-set_of (ids (take k sorted)) t ∙ e)),
            none-chosen chosen (drop k sorted) (All-set_of (ids (take k sorted)) _ apart),
            length-take k sorted (omega (arith, length-sort by_remainder xs)),
          )
          (omega int_laws) ⟩
        pos k ∎

  -- Handing k units to the k largest remainders adds k.
  pub sum-award : sum_ℤ (award (bonus_ids (pos k) xs)) xs ≡ sum_ℤ (λ item. item.value) xs +ℤ pos k
  unfolding award bonus_ids
  sum-award =
      sum_ℤ-add (λ item. item.value) (bonus chosen) xs
      ∙ ap (λ s. sum_ℤ (λ (item : Provisional). item.value) xs +ℤ s) sum-bonus

pub award_near :
    (bonus : List Text) (s : Provisional)
    → (s.value ≤ℤ award bonus s) × (award bonus s ≤ℤ s.value +ℤ pos 1)
unfolding award
award_near bonus s = elim (Bool-cases (contains bonus s.id)) [
  | inl yes_bonus ↦ rw yes_bonus (omega int_laws, omega int_laws)
  | inr no_bonus ↦ rw no_bonus (omega int_laws, omega int_laws)
]
