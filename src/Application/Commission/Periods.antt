-- ===== src/Application/Commission/Periods.antt =====
-- Which period of a schedule is the only one that applies, said without the code's tests.
use portfolio_rebalancer.Prelude.{
  Ordering, Text, compare_text, Bool, Bool-cases, true, false, Option, none, some, List, [], ◌∷◌,
  ◌++◌, filter, All, All-map, arith, ap, refl, subst, ◌≡◌, ◌↔◌, inl, inr,
}
use portfolio_rebalancer.Application.Commission.{
  CommissionRatePeriod, CommissionInput, is_applicable,
}

-- The period is in force on the day: it begins on the day or before, and ends on the day or after, as
-- far as it has a beginning and an end. Dates are compared as texts.
abbrev pub IsBegun : Option Text → Text → Type 0
IsBegun none day = Unit
IsBegun (some start) day = ¬ (compare_text day start ≡ Ordering.lt)

abbrev pub IsNotEnded : Option Text → Text → Type 0
IsNotEnded none day = Unit
IsNotEnded (some end) day = ¬ (compare_text end day ≡ Ordering.lt)

abbrev pub IsInForce : CommissionInput → CommissionRatePeriod → Type 0
IsInForce input period =
    (period.market_country ≡ input.market_country)
    × IsBegun period.start_date input.trade_date
    × IsNotEnded period.end_date input.trade_date

-- The period is in force and no other one, at any place of the list, is.
abbrev pub IsOnly : CommissionInput → CommissionRatePeriod → List CommissionRatePeriod → Type 0
IsOnly input period periods =
    (before after : List CommissionRatePeriod) × (periods ≡ before ++ period ∷ after)
    × All (λ p. ¬ (IsInForce input p)) before
    × IsInForce input period
    × All (λ p. ¬ (IsInForce input p)) after

IsInForce-iff :
    (input : CommissionInput) (period : CommissionRatePeriod)
    → (is_applicable input period ≡ true) ↔ IsInForce input period
unfolding is_applicable
IsInForce-iff input period = ground arith

left_out : (b : Bool) {P : Type 0} → (b ≡ true) ↔ P → (b ≡ false) ↔ (¬ P)
left_out true f = (λ h. cc, λ h. absurd (h (f.0 refl)))
left_out false f = (λ h p. let e = f.1 p in cc, λ h. refl)

module _ {A : Type 0} (p : A → Bool) where
  filter-nil : (xs : List A) → (filter p xs ≡ []) ↔ All (λ x. p x ≡ false) xs
  filter-nil [] = (λ h. tt, λ h. refl)
  filter-nil (x ∷ xs) = elim (Bool-cases (p x)) [
    | inl kept ↦ (λ h. let h' = rw kept at h in cc, λ h. let e = h.0 in cc)
    | inr dropped ↦ rw dropped (λ h. (refl, (filter-nil xs).0 h), λ h. (filter-nil xs).1 h.1)
  ]

  filter-skip : (xs ys : List A) → All (λ x. p x ≡ false) xs → filter p (xs ++ ys) ≡ filter p ys
  filter-skip [] ys h = refl
  filter-skip (x ∷ xs) ys h = rw h.0 (filter-skip xs ys h.1)

  filter-one_to :
      (xs : List A) {y : A}
      → filter p xs ≡ y ∷ []
      → (before after : List A) × (xs ≡ before ++ y ∷ after)
        × All (λ x. p x ≡ false) before
        × (p y ≡ true)
        × All (λ x. p x ≡ false) after
  filter-one_to [] h = cc
  filter-one_to (x ∷ xs) {y} h = elim (Bool-cases (p x)) [
    | inl kept ↦
        let h' : x ∷ filter p xs ≡ y ∷ [] = rw kept at h in
        let same : x ≡ y = cc in
        let rest : filter p xs ≡ [] = cc in
        (
          [],
          xs,
          ap (λ z. z ∷ xs) same,
          tt,
          subst (λ z. p z ≡ true) same kept,
          (filter-nil xs).0 rest,
        )
    | inr dropped ↦
        let h' : filter p xs ≡ y ∷ [] = rw dropped at h in
        let (before, after, e, b, k, a) = filter-one_to xs h' in
        (x ∷ before, after, ap (λ l. x ∷ l) e, (dropped, b), k, a)
  ]

  filter-one_from :
      (before after : List A) (y : A)
      → All (λ x. p x ≡ false) before
      → p y ≡ true
      → All (λ x. p x ≡ false) after
      → filter p (before ++ y ∷ after) ≡ y ∷ []
  filter-one_from before after y b k a =
      rw (filter-skip before (y ∷ after) b, k, (filter-nil after).1 a) refl

pub IsOnly-to :
    (input : CommissionInput) (periods : List CommissionRatePeriod) {period : CommissionRatePeriod}
    → filter (is_applicable input) periods ≡ period ∷ []
    → IsOnly input period periods
IsOnly-to input periods {period} h =
    let (before, after, e, b, k, a) = filter-one_to (is_applicable input) periods h in
    let not_in_force = λ (q : CommissionRatePeriod) (out : is_applicable input q ≡ false).
      (left_out (is_applicable input q) (IsInForce-iff input q)).0 out in
    (
      before,
      after,
      e,
      All-map not_in_force before b,
      (IsInForce-iff input period).0 k,
      All-map not_in_force after a,
    )

pub IsOnly-from :
    (input : CommissionInput) (period : CommissionRatePeriod) (periods : List CommissionRatePeriod)
    → IsOnly input period periods
    → filter (is_applicable input) periods ≡ period ∷ []
IsOnly-from input period periods (before, after, e, b, k, a) =
    let out = λ (q : CommissionRatePeriod) (no : ¬ (IsInForce input q)).
      (left_out (is_applicable input q) (IsInForce-iff input q)).1 no in
    rw e (
      filter-one_from (is_applicable input) before after period (All-map out before b)
        ((IsInForce-iff input period).1 k) (All-map out after a))
