-- ===== src/Application/Commission/Rates.antt =====
-- Which texts of rates can be read, said without the code's tests.
use portfolio_rebalancer.Prelude.{
  decimal_value, or_empty, pos, ◌^◌, ◌≤◌, ◌<◌, Text, is_digit, is_whole, is_fraction, whole_of,
  fraction_of, whole_of-digits, whole_of-whole, fraction_of-digits, fraction_of-whole, ltb, ◌==◌,
  Bool-cases, true, false, none, some, [], ◌∷◌, ◌++◌, length, all, All, arith, ap, refl, ◌≡◌, ◌↔◌,
  ◌⊎◌, inl, inr,
}
use portfolio_rebalancer.Application.Commission.{Rate, parse_non_negative_decimal}
use portfolio_rebalancer.Application.Commission.Calendar.{IsDigit}

-- Digits that do not start with 0, or the one digit 0.
abbrev pub IsWholeNumber : Text → Type 0
IsWholeNumber [] = ⊥
IsWholeNumber (c ∷ s) = IsDigit c × All IsDigit s × ((¬ (c ≡ 48)) ⊎ (s ≡ []))

-- A whole number, alone or with a point and digits behind it.
abbrev pub IsDecimalText : Text → Type 0
IsDecimalText t =
    (whole : Text) × IsWholeNumber whole
    × ((t ≡ whole)
        ⊎ ((fraction : Text) × (0 < length fraction)
            × All IsDigit fraction
            × (t ≡ whole ++ 46 ∷ fraction)))

all-IsDigit_iff : (s : Text) → (all is_digit s ≡ true) ↔ All IsDigit s
all-IsDigit_iff [] = (λ h. tt, λ h. refl)
all-IsDigit_iff (c ∷ s) =
    let ih = all-IsDigit_iff s in (λ h. ground (arith, ih.0), λ h. ground (arith, h.0, ih.1 h.1))

whole_iff : (s : Text) → (is_whole s ≡ true) ↔ IsWholeNumber s
whole_iff [] = (λ h. cc, λ h. absurd h)
whole_iff (c ∷ []) = ground arith
whole_iff (c ∷ d ∷ s) =
    let (to, from) = all-IsDigit_iff (d ∷ s) in
    (
      λ h. (ground arith, to (ground arith), ground arith),
      λ (p, q, r). let digits = from q in ground arith,
    )

-- A text is what stands before its first point, with the point and what is behind it.
split_lem :
    (t : Text)
    → ((fraction_of t ≡ none) × (t ≡ whole_of t))
      ⊎ ((f : Text) × (fraction_of t ≡ some f) × (t ≡ whole_of t ++ 46 ∷ f))
split_lem [] = inl (refl, refl)
split_lem (c ∷ t) = elim (Bool-cases (c == 46)) [
  | inl point ↦ let e : c ≡ 46 = ground arith in rw point (inr (t, refl, ap (λ d. d ∷ t) e))
  | inr other ↦ elim (split_lem t) [
    | inl (e, whole) ↦ rw other (inl (e, ap (λ s. c ∷ s) whole))
    | inr (f, e, parts) ↦ rw other (inr (f, e, ap (λ s. c ∷ s) parts))
  ]
]

-- The rate's text can be read.
abbrev pub IsRateText : Text → Type 0
IsRateText t = IsDecimalText t × (length t ≤ 30)

pattern_to :
    (t : Text) → is_whole (whole_of t) ≡ true → is_fraction (fraction_of t) ≡ true → IsDecimalText t
pattern_to t h k = elim (split_lem t) [
  | inl (e, whole) ↦ (whole_of t, (whole_iff (whole_of t)).0 h, inl whole)
  | inr (f, e, parts) ↦
      let k' : is_fraction (some f) ≡ true = rw e at k in
      (
        whole_of t,
        (whole_iff (whole_of t)).0 h,
        inr (f, ground arith, (all-IsDigit_iff f).0 (ground arith), parts),
      )
]

digits_of_whole : (s : Text) → IsWholeNumber s → all is_digit s ≡ true
digits_of_whole [] h = absurd h
digits_of_whole (c ∷ s) (p, q, r) = (all-IsDigit_iff (c ∷ s)).1 (p, q)

pattern_from :
    (t : Text)
    → IsDecimalText t
    → (is_whole (whole_of t) ≡ true) × (is_fraction (fraction_of t) ≡ true)
pattern_from t (whole, w, parts) =
    let digits = digits_of_whole whole w in
    let good = (whole_iff whole).1 w in
    elim parts [
      | inl e ↦ rw (e, whole_of-whole whole digits, fraction_of-whole whole digits) (good, refl)
      | inr (fraction, some_digit, f, e) ↦
          let behind = (all-IsDigit_iff fraction).1 f in
          rw (e, whole_of-digits whole fraction digits, fraction_of-digits whole fraction digits)
            (good, ground arith)
    ]

pub IsRateText-to :
    (t : Text) {rate : Rate} → parse_non_negative_decimal t ≡ some rate → IsRateText t
unfolding parse_non_negative_decimal
IsRateText-to t h = (pattern_to t (ground arith) (ground arith), ground arith)

pub IsRateText-from :
    (t : Text) → IsRateText t → (rate : Rate) × (parse_non_negative_decimal t ≡ some rate)
unfolding parse_non_negative_decimal
IsRateText-from t (d, short) =
    let (whole, fraction) = pattern_from t d in
    let fits : ltb 30 (length t) ≡ false = ground arith in
    (
      record {
        numerator = pos (decimal_value 0 (whole_of t ++ or_empty (fraction_of t)));
        scale = pos (10 ^ length (or_empty (fraction_of t)));
      },
      rw (whole, fraction, fits) refl,
    )
