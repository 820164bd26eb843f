-- ===== src/Prelude/Digits.antt =====
-- What `toString()` prints is read back by `BigInt`, and how a decimal text falls apart at its point.
use Prim.Native.Nat.{ℕ, zero, suc, ◌+◌, ◌-◌, ◌*◌, ◌/◌, ◌%◌, ◌≤◌, ◌<◌}
use mathlib.Core.Path.{◌≡◌, refl, ap, ◌∙◌}
use mathlib.Core.Logic.{inl, inr}
use mathlib.Core.Bool.{Bool, true, false, ◌&&◌}
use mathlib.Core.Option.{none, some}
use mathlib.Core.List.{[], ◌∷◌, ◌++◌}
use native.Mathlib.Omega.{arith}
use portfolio_rebalancer.Prelude.Tests.{ltb, ◌==◌, Bool-cases}
use portfolio_rebalancer.Prelude.Lists.{length, all, take, drop}
use portfolio_rebalancer.Prelude.Int.{pos}
use portfolio_rebalancer.Prelude.Strings.{Text}
use portfolio_rebalancer.Prelude.Numerals.{
  digit_value, digits_from, drop_spaces, reversed, trim, trimmed_number, big_int,
}
use portfolio_rebalancer.Prelude.Decimals.{
  is_digit, is_whole, whole_of, fraction_of, decimal_value, digits_of, to_text, zeros,
}

pub all-digit-append : (s t : Text) → all is_digit (s ++ t) ≡ (all is_digit s && all is_digit t)
all-digit-append [] t = refl
all-digit-append (c ∷ s) t = ground (arith, all-digit-append s t)

pub decimal_value-append :
    (acc : ℕ) (s t : Text) → decimal_value acc (s ++ t) ≡ decimal_value (decimal_value acc s) t
decimal_value-append acc [] t = refl
decimal_value-append acc (c ∷ s) t = decimal_value-append (acc * 10 + digit_value c) s t

pub length-text-append : (s t : Text) → length (s ++ t) ≡ length s + length t
length-text-append [] t = omega arith
length-text-append (c ∷ s) t = omega (arith, length-text-append s t)

-- The text starts with a zero, or is empty.
abbrev pub starts_low : Text → Bool
starts_low [] = true
starts_low (c ∷ s) = c == 48

starts_low-append : (s t : Text) → starts_low s ≡ false → starts_low (s ++ t) ≡ false
starts_low-append [] t h = ground arith
starts_low-append (c ∷ s) t h = h

digit-facts : (d : ℕ) → d < 10 → (is_digit (48 + d) ≡ true) × (digit_value (48 + d) ≡ d)
digit-facts d h = ground arith

-- What `toString()` gives.
pub record IsNumeral (n : ℕ) (s : Text) : Type 0 where
  pub digits : all is_digit s ≡ true
  pub value : decimal_value 0 s ≡ n
  pub nonempty : 0 < length s
  pub leading : (0 < n) → starts_low s ≡ false
  pub short : (n ≡ 0) → length s ≡ 1

IsNumeral-last :
    (n : ℕ) (s : Text) → 10 ≤ n → IsNumeral (n / 10) s → IsNumeral n (s ++ (48 + n % 10) ∷ [])
IsNumeral-last n s big v =
    let (digit, value) = digit-facts (n % 10) (omega arith) in
    let vd = v.digits in
    let vv = v.value in
    record {
      digits = all-digit-append s ((48 + n % 10) ∷ []) ∙ ground arith;
      value = decimal_value-append 0 s ((48 + n % 10) ∷ []) ∙ (rw (vv, value) (omega arith));
      nonempty = omega (arith, length-text-append s ((48 + n % 10) ∷ []));
      leading = λ p. starts_low-append s ((48 + n % 10) ∷ []) (v.leading (omega arith));
      short = λ e. absurd (omega arith);
    }

digits_of_small : (fuel n : ℕ) → n < 10 → digits_of (suc fuel) n ≡ (48 + n) ∷ []
unfolding digits_of
digits_of_small fuel n h = ground arith

digits_of_large :
    (fuel n : ℕ) → 10 ≤ n → digits_of (suc fuel) n ≡ digits_of fuel (n / 10) ++ (48 + n % 10) ∷ []
unfolding digits_of
digits_of_large fuel n h = ground arith

IsNumeral-digit : (n : ℕ) → n < 10 → IsNumeral n ((48 + n) ∷ [])
IsNumeral-digit n h =
    let (digit, value) = digit-facts n h in
    record {
      digits = ground arith;
      value = omega (arith, value);
      nonempty = omega arith;
      leading = λ p. ground arith;
      short = λ e. refl;
    }

digits_of-IsNumeral : (fuel n : ℕ) → n < fuel → IsNumeral n (digits_of fuel n)
digits_of-IsNumeral zero n h = absurd (omega arith)
digits_of-IsNumeral (suc fuel) n h = elim (Bool-cases (ltb n 10)) [
  | inl small ↦
      let few : n < 10 = ground arith in rw (digits_of_small fuel n few) (IsNumeral-digit n few)
  | inr big ↦
      let many : 10 ≤ n = ground arith in
      rw (digits_of_large fuel n many) (
        IsNumeral-last n (digits_of fuel (n / 10)) many
          (digits_of-IsNumeral fuel (n / 10) (omega arith)))
]

pub to_text-IsNumeral : (n : ℕ) → IsNumeral n (to_text n)
unfolding to_text
to_text-IsNumeral n = digits_of-IsNumeral (suc n) n (omega arith)

digits_from-eq :
    (s : Text) (acc : ℕ) → all is_digit s ≡ true → digits_from 10 acc s ≡ some (decimal_value acc s)
unfolding digits_from
digits_from-eq [] acc h = refl
digits_from-eq (c ∷ s) acc h = ground (arith, digits_from-eq s (acc * 10 + digit_value c))

drop_spaces-digits : (s : Text) → all is_digit s ≡ true → drop_spaces s ≡ s
drop_spaces-digits [] h = refl
drop_spaces-digits (c ∷ s) h = ground arith

reversed-digits : (s : Text) → all is_digit s ≡ true → all is_digit (reversed s) ≡ true
reversed-digits [] h = refl
reversed-digits (c ∷ s) h =
    all-digit-append (reversed s) (c ∷ []) ∙ ground (arith, reversed-digits s)

reversed-append : (s : Text) (c : ℕ) → reversed (s ++ c ∷ []) ≡ c ∷ reversed s
reversed-append [] c = refl
reversed-append (d ∷ s) c = ap (λ r. r ++ d ∷ []) (reversed-append s c)

reversed-reversed : (s : Text) → reversed (reversed s) ≡ s
reversed-reversed [] = refl
reversed-reversed (c ∷ s) = reversed-append (reversed s) c ∙ ap (λ r. c ∷ r) (reversed-reversed s)

trim-digits : (s : Text) → all is_digit s ≡ true → trim s ≡ s
trim-digits s h =
    rw (drop_spaces-digits s h, drop_spaces-digits (reversed s) (reversed-digits s h))
      (reversed-reversed s)

trimmed_number-digits :
    (s : Text)
    → 0 < length s
    → all is_digit s ≡ true
    → trimmed_number s ≡ some (pos (decimal_value 0 s))
trimmed_number-digits [] p h = absurd (omega arith)
trimmed_number-digits (c ∷ []) p h = ground (arith, digits_from-eq (c ∷ []) 0 h)
trimmed_number-digits (c ∷ d ∷ s) p h = ground (arith, digits_from-eq (c ∷ d ∷ s) 0 h)

-- `BigInt` reads digits.
pub big_int-digits :
    (s : Text) → 0 < length s → all is_digit s ≡ true → big_int s ≡ some (pos (decimal_value 0 s))
unfolding big_int
big_int-digits s p h = rw (trim-digits s h) (trimmed_number-digits s p h)

pub all-digit-zeros : (n : ℕ) (s : Text) → all is_digit s ≡ true → all is_digit (zeros n s) ≡ true
all-digit-zeros zero s h = h
all-digit-zeros (suc n) s h = ground (arith, all-digit-zeros n s h)

pub decimal_value-zeros : (n : ℕ) (s : Text) → decimal_value 0 (zeros n s) ≡ decimal_value 0 s
decimal_value-zeros zero s = refl
decimal_value-zeros (suc n) s = decimal_value-zeros n s

pub length-zeros : (n : ℕ) (s : Text) → length (zeros n s) ≡ n + length s
length-zeros zero s = omega arith
length-zeros (suc n) s = omega (arith, length-zeros n s)

-- The parts of a decimal text.
pub whole_of-digits : (s t : Text) → all is_digit s ≡ true → whole_of (s ++ 46 ∷ t) ≡ s
whole_of-digits [] t h = refl
whole_of-digits (c ∷ s) t h = ground (arith, whole_of-digits s t)

pub whole_of-whole : (s : Text) → all is_digit s ≡ true → whole_of s ≡ s
whole_of-whole [] h = refl
whole_of-whole (c ∷ s) h = ground (arith, whole_of-whole s)

pub fraction_of-digits : (s t : Text) → all is_digit s ≡ true → fraction_of (s ++ 46 ∷ t) ≡ some t
fraction_of-digits [] t h = refl
fraction_of-digits (c ∷ s) t h = ground (arith, fraction_of-digits s t)

pub fraction_of-whole : (s : Text) → all is_digit s ≡ true → fraction_of s ≡ none
fraction_of-whole [] h = refl
fraction_of-whole (c ∷ s) h = ground (arith, fraction_of-whole s)

pub is_whole-digits :
    (s : Text)
    → 0 < length s
    → all is_digit s ≡ true
    → (1 < length s → starts_low s ≡ false)
    → is_whole s ≡ true
is_whole-digits [] p h k = absurd (omega arith)
is_whole-digits (c ∷ []) p h k = ground arith
is_whole-digits (c ∷ d ∷ s) p h k = let high = k (omega arith) in ground arith

pub take-digits : (n : ℕ) (s : Text) → all is_digit s ≡ true → all is_digit (take n s) ≡ true
take-digits zero s h = refl
take-digits (suc n) [] h = refl
take-digits (suc n) (c ∷ s) h = ground (arith, take-digits n s)

pub drop-digits : (n : ℕ) (s : Text) → all is_digit s ≡ true → all is_digit (drop n s) ≡ true
drop-digits zero s h = h
drop-digits (suc n) [] h = refl
drop-digits (suc n) (c ∷ s) h = ground (arith, drop-digits n s)

pub length-drop : (n : ℕ) (s : Text) → n ≤ length s → length (drop n s) ≡ length s - n
length-drop zero s h = omega arith
length-drop (suc n) [] h = absurd (omega arith)
length-drop (suc n) (c ∷ s) h = omega (arith, length-drop n s)

pub take-length : (n : ℕ) (s : Text) → length s ≤ n → take n s ≡ s
take-length zero [] h = refl
take-length zero (c ∷ s) h = absurd (omega arith)
take-length (suc n) [] h = refl
take-length (suc n) (c ∷ s) h = ap (λ r. c ∷ r) (take-length n s (omega arith))

pub drop-length : (n : ℕ) (s : Text) → length s ≤ n → drop n s ≡ []
drop-length zero [] h = refl
drop-length zero (c ∷ s) h = absurd (omega arith)
drop-length (suc n) [] h = refl
drop-length (suc n) (c ∷ s) h = drop-length n s (omega arith)

pub starts_low-take :
    (n : ℕ) (s : Text) → 0 < n → starts_low s ≡ false → starts_low (take n s) ≡ false
starts_low-take zero s p h = absurd (omega arith)
starts_low-take (suc n) [] p h = h
starts_low-take (suc n) (c ∷ s) p h = h
