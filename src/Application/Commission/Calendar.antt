-- ===== src/Application/Commission/Calendar.antt =====
-- Which texts are days of the calendar, said without the code's tests, and that `isIsoDate` decides it.
use portfolio_rebalancer.Prelude.{
  ℕ, ◌+◌, ◌-◌, ◌*◌, ◌%◌, ◌≤◌, Text, is_digit, decimal_value, Bool, true, false, ◌&&◌, ◌==◌, subst,
  sym, refl, [], ◌∷◌, all, All, arith, ◌≡◌, ◌↔◌, ◌⊎◌,
}
use portfolio_rebalancer.Application.Commission.{is_calendar_day, is_iso_date}

abbrev pub IsLeapYear : ℕ → Type 0
IsLeapYear year = (year % 400 ≡ 0) ⊎ ((year % 4 ≡ 0) × (¬ (year % 100 ≡ 0)))

abbrev pub IsLongMonth : ℕ → Type 0
IsLongMonth m = (m ≡ 1) ⊎ (m ≡ 3) ⊎ (m ≡ 5) ⊎ (m ≡ 7) ⊎ (m ≡ 8) ⊎ (m ≡ 10) ⊎ (m ≡ 12)

abbrev pub IsShortMonth : ℕ → Type 0
IsShortMonth m = (m ≡ 4) ⊎ (m ≡ 6) ⊎ (m ≡ 9) ⊎ (m ≡ 11)

-- A day of the Gregorian calendar, in a year of four digits that do not start with 0.
abbrev pub IsCalendarDay : ℕ → ℕ → ℕ → Type 0
IsCalendarDay year month day =
    (1000 ≤ year)
    × (1 ≤ day)
    × ((IsLongMonth month × (day ≤ 31))
        ⊎ (IsShortMonth month × (day ≤ 30))
        ⊎ ((month ≡ 2) × (day ≤ 28))
        ⊎ ((month ≡ 2) × (day ≡ 29) × IsLeapYear year))

abbrev pub IsDigit : ℕ → Type 0
IsDigit c = (48 ≤ c) × (c ≤ 57)

-- The numbers that two digits and that four digits denote.
abbrev pub two_digits : ℕ → ℕ → ℕ
two_digits a b = 10 * (a - 48) + (b - 48)

abbrev pub four_digits : ℕ → ℕ → ℕ → ℕ → ℕ
four_digits a b c d = 100 * two_digits a b + two_digits c d

-- The text is `YYYY-MM-DD`, the date of a day of the calendar.
abbrev pub IsDate : Text → Type 0
IsDate (y1 ∷ y2 ∷ y3 ∷ y4 ∷ d1 ∷ m1 ∷ m2 ∷ d2 ∷ a1 ∷ a2 ∷ []) =
    All IsDigit (y1 ∷ y2 ∷ y3 ∷ y4 ∷ m1 ∷ m2 ∷ a1 ∷ a2 ∷ [])
    × (d1 ≡ 45)
    × (d2 ≡ 45)
    × IsCalendarDay (four_digits y1 y2 y3 y4) (two_digits m1 m2) (two_digits a1 a2)
IsDate _ = ⊥

calendar_iff :
    (year month day : ℕ) → (is_calendar_day year month day ≡ true) ↔ IsCalendarDay year month day
calendar_iff year month day = ground arith

digits_iff :
    (y1 y2 y3 y4 m1 m2 a1 a2 : ℕ)
    → (all is_digit (y1 ∷ y2 ∷ y3 ∷ y4 ∷ m1 ∷ m2 ∷ a1 ∷ a2 ∷ []) ≡ true)
      ↔ All IsDigit (y1 ∷ y2 ∷ y3 ∷ y4 ∷ m1 ∷ m2 ∷ a1 ∷ a2 ∷ [])
digits_iff y1 y2 y3 y4 m1 m2 a1 a2 = ground arith

two-eq : (a b : ℕ) → IsDigit a → IsDigit b → decimal_value 0 (a ∷ b ∷ []) ≡ two_digits a b
two-eq a b p q = ground arith

four-eq :
    (a b c d : ℕ)
    → IsDigit a
    → IsDigit b
    → IsDigit c
    → IsDigit d
    → decimal_value 0 (a ∷ b ∷ c ∷ d ∷ []) ≡ four_digits a b c d
four-eq a b c d p q r s = ground arith

-- The tests of a text of ten code units, put together.
together :
    (digits calendar : Bool) (d1 d2 : ℕ) {P Q R : Type 0}
    → (digits ≡ true) ↔ P
    → (P → Q ≡ R)
    → (calendar ≡ true) ↔ Q
    → ((digits && d1 == 45 && d2 == 45 && calendar) ≡ true) ↔ (P × (d1 ≡ 45) × (d2 ≡ 45) × R)
together digits calendar d1 d2 f e g = (
  λ h.
      let p = f.0 (ground arith) in
      (p, ground arith, ground arith, subst (λ T. T) (e p) (g.0 (ground arith))),
  λ (p, a, b, r).
      let first = f.1 p in let last = g.1 (subst (λ T. T) (sym (e p)) r) in ground arith,
)

not_ten : (false ≡ true) ↔ ⊥
not_ten = (λ h. cc, λ h. absurd h)

pub IsDate-iff : (t : Text) → (is_iso_date t ≡ true) ↔ IsDate t
unfolding is_iso_date
IsDate-iff [] = not_ten
IsDate-iff (a ∷ []) = not_ten
IsDate-iff (a ∷ b ∷ []) = not_ten
IsDate-iff (a ∷ b ∷ c ∷ []) = not_ten
IsDate-iff (a ∷ b ∷ c ∷ d ∷ []) = not_ten
IsDate-iff (a ∷ b ∷ c ∷ d ∷ e ∷ []) = not_ten
IsDate-iff (a ∷ b ∷ c ∷ d ∷ e ∷ f ∷ []) = not_ten
IsDate-iff (a ∷ b ∷ c ∷ d ∷ e ∷ f ∷ g ∷ []) = not_ten
IsDate-iff (a ∷ b ∷ c ∷ d ∷ e ∷ f ∷ g ∷ h ∷ []) = not_ten
IsDate-iff (a ∷ b ∷ c ∷ d ∷ e ∷ f ∷ g ∷ h ∷ i ∷ []) = not_ten
IsDate-iff (y1 ∷ y2 ∷ y3 ∷ y4 ∷ d1 ∷ m1 ∷ m2 ∷ d2 ∷ a1 ∷ a2 ∷ []) =
    together _ _ d1 d2 (digits_iff y1 y2 y3 y4 m1 m2 a1 a2)
      (λ (p1, (p2, (p3, (p4, (q1, (q2, (r1, (r2, u)))))))).
        rw (four-eq y1 y2 y3 y4 p1 p2 p3 p4, two-eq m1 m2 q1 q2, two-eq a1 a2 r1 r2) refl)
      (calendar_iff (decimal_value 0 (y1 ∷ y2 ∷ y3 ∷ y4 ∷ [])) (decimal_value 0 (m1 ∷ m2 ∷ []))
        (decimal_value 0 (a1 ∷ a2 ∷ [])))
IsDate-iff (a ∷ b ∷ c ∷ d ∷ e ∷ f ∷ g ∷ h ∷ i ∷ j ∷ k ∷ t) = not_ten
