-- ===== src/Domain/Decimal/RoundTrip.antt =====
-- What is printed is read back.
use portfolio_rebalancer.Prelude.{
  ℕ, zero, suc, ◌-◌, ◌+◌, ◌≤◌, ◌<◌, ◌^◌, ◌==◌, ℤ, pos, negsuc, ◌-ℤ◌, ltb_ℤ, leb, Text,
  big_int-digits, is_digit, is_whole, is_fraction, whole_of, fraction_of, decimal_value, to_text,
  pad_start, IsNumeral, to_text-IsNumeral, length-text-append, all-digit-zeros, decimal_value-zeros,
  length-zeros, whole_of-digits, whole_of-whole, fraction_of-digits, fraction_of-whole,
  is_whole-digits, take-digits, drop-digits, length-drop, take-length, drop-length,
  take-append-drop, length-take, starts_low, starts_low-take, true, false, [], ◌∷◌, ◌++◌, length,
  all, take, drop, ok, ◌>>=◌, arith, ◌≡◌, refl, sym, ap, ◌∙◌,
}
use portfolio_rebalancer.Domain.Decimal.{
  starts_minus, unsigned_of, is_decimal, decimal, is_bad_digits, second_part, pad_end, negated,
  or_zero, to_scaled_integer, signed, magnitude, pointed, from_scaled_integer,
}

abbrev printed : ℤ → ℕ → Text
printed value count = pad_start (count + 1) (to_text (magnitude value))

-- The digits of a padded print.
record IsPadded (n count : ℕ) (s : Text) : Type 0 where
  digits : all is_digit s ≡ true
  value : decimal_value 0 s ≡ n
  long : count + 1 ≤ length s
  leading : count + 1 < length s → starts_low s ≡ false

lead_zeros :
    (count n : ℕ) (s : Text)
    → IsNumeral n s
    → count + 1 < length (pad_start (count + 1) s)
    → starts_low (pad_start (count + 1) s) ≡ false
lead_zeros count n s v longer =
    let width = length-zeros (count + 1 - length s) s in
    let none_added : count + 1 - length s ≡ 0 = omega (arith, width) in
    let long : 1 < length s = omega (arith, width) in
    rw none_added (v.leading (ground (arith, v.short)))

padded : (n count : ℕ) (s : Text) → IsNumeral n s → IsPadded n count (pad_start (count + 1) s)
padded n count s v =
    let nonempty = v.nonempty in
    let width = length-zeros (count + 1 - length s) s in
    record {
      digits = all-digit-zeros (count + 1 - length s) s v.digits;
      value = decimal_value-zeros (count + 1 - length s) s ∙ v.value;
      long = omega (arith, width);
      leading = lead_zeros count n s v;
    }

-- A text that falls apart into digits before and behind its point.
record IsParted (t w f : Text) (n : ℕ) : Type 0 where
  whole : whole_of (unsigned_of t) ≡ w
  fraction : second_part (fraction_of (unsigned_of t)) ≡ f
  width : length f ≡ n
  nonempty : 0 < length w
  digits : all is_digit (w ++ f) ≡ true

append_nil : (s : Text) → s ++ [] ≡ s
append_nil [] = refl
append_nil (c ∷ s) = ap (λ r. c ∷ r) (append_nil s)

zero_left : (n : ℕ) (f : Text) → length f ≡ n → n - length f ≡ 0
zero_left n f e = omega (arith, e)

pad_end-full : (n : ℕ) (f : Text) → length f ≡ n → pad_end n (take n f) ≡ f
pad_end-full n f e = rw (take-length n f (omega (arith, e)), zero_left n f e) (append_nil f)

or_zero-some : (s : Text) → 0 < length s → or_zero s ≡ s
or_zero-some [] p = absurd (omega arith)
or_zero-some (c ∷ s) p = refl

to_scaled-parts :
    (t w f : Text) (n : ℕ)
    → n ≤ 2 ^ 53 - 1
    → IsParted t w f n
    → to_scaled_integer t (pos n) ≡ ok (negated (starts_minus t) (pos (decimal_value 0 (w ++ f))))
unfolding to_scaled_integer
to_scaled-parts t w f n h p =
    let wide : 0 < length (w ++ f) = omega (arith, length-text-append w f, p.nonempty) in
    let good : is_bad_digits (pos n) ≡ false = ground arith in
    rw
      (
        p.whole,
        p.fraction,
        pad_end-full n f p.width,
        drop-length n f (omega (arith, p.width)),
        or_zero-some (w ++ f) wide,
        big_int-digits (w ++ f) wide p.digits,
        good,
      )
      refl

-- A text that starts with a digit carries no sign of its own.
unsigned_of-signed :
    (v : ℤ) (w t : Text)
    → 0 < length w
    → all is_digit w ≡ true
    → unsigned_of (signed v (w ++ t)) ≡ w ++ t
unsigned_of-signed v [] t p h = absurd (omega arith)
unsigned_of-signed v (c ∷ w) t p h = ground arith

starts_minus-signed :
    (v : ℤ) (w t : Text)
    → 0 < length w
    → all is_digit w ≡ true
    → starts_minus (signed v (w ++ t)) ≡ ltb_ℤ v (pos 0)
starts_minus-signed v [] t p h = absurd (omega arith)
starts_minus-signed v (c ∷ w) t p h = ground arith

-- The digits before the point, and behind it.
abbrev front : ℕ → Text → Text
front n s = take (length s - n) s

abbrev back : ℕ → Text → Text
back n s = drop (length s - n) s

-- What is printed behind the digits before the point.
abbrev tail_of : ℕ → Text → Text
tail_of zero s = []
tail_of (suc n) s = 46 ∷ back (suc n) s

record IsPrint (v : ℤ) (n : ℕ) (s : Text) : Type 0 where
  split : signed v (pointed n s) ≡ signed v (front n s ++ tail_of n s)
  unsigned : unsigned_of (signed v (pointed n s)) ≡ front n s ++ tail_of n s
  minus : starts_minus (signed v (pointed n s)) ≡ ltb_ℤ v (pos 0)
  parted : IsParted (signed v (pointed n s)) (front n s) (back n s) n
  decimal : is_decimal (signed v (pointed n s)) ≡ true

pointed-split : (n : ℕ) (s : Text) → pointed n s ≡ front n s ++ tail_of n s
pointed-split zero s =
    sym (append_nil (take (length s - 0) s) ∙ take-length (length s - 0) s (omega arith))
pointed-split (suc n) s =
    let some_places : (suc n == 0) ≡ false = ground arith in rw some_places refl

front-length : (n k : ℕ) (s : Text) → IsPadded k n s → length (front n s) ≡ length s - n
front-length n k s p = length-take (length s - n) s (omega arith)

back-length : (n k : ℕ) (s : Text) → IsPadded k n s → length (back n s) ≡ n
back-length n k s p = let long = p.long in length-drop (length s - n) s (omega arith) ∙ omega arith

front-digits : (n k : ℕ) (s : Text) → IsPadded k n s → all is_digit (front n s) ≡ true
front-digits n k s p = take-digits (length s - n) s p.digits

back-digits : (n k : ℕ) (s : Text) → IsPadded k n s → all is_digit (back n s) ≡ true
back-digits n k s p = drop-digits (length s - n) s p.digits

front-wide : (n k : ℕ) (s : Text) → IsPadded k n s → 0 < length (front n s)
front-wide n k s p = omega (arith, front-length n k s p, p.long)

front-whole : (n k : ℕ) (s : Text) → IsPadded k n s → is_whole (front n s) ≡ true
front-whole n k s p =
    let size = front-length n k s p in
    is_whole-digits (front n s) (front-wide n k s p) (front-digits n k s p)
      (λ many. starts_low-take (length s - n) s (omega arith) (p.leading (omega arith)))

whole_of-print :
    (n k : ℕ) (s : Text) → IsPadded k n s → whole_of (front n s ++ tail_of n s) ≡ front n s
whole_of-print zero k s p =
    rw (append_nil (front 0 s)) (whole_of-whole (front 0 s) (front-digits 0 k s p))
whole_of-print (suc n) k s p =
    whole_of-digits (front (suc n) s) (back (suc n) s) (front-digits (suc n) k s p)

fraction-print :
    (n k : ℕ) (s : Text)
    → IsPadded k n s
    → second_part (fraction_of (front n s ++ tail_of n s)) ≡ back n s
fraction-print zero k s p =
    rw (append_nil (front 0 s), fraction_of-whole (front 0 s) (front-digits 0 k s p))
      (sym (drop-length (length s - 0) s (omega arith)))
fraction-print (suc n) k s p =
    rw (fraction_of-digits (front (suc n) s) (back (suc n) s) (front-digits (suc n) k s p))
      (whole_of-whole (back (suc n) s) (back-digits (suc n) k s p))

is_fraction-print :
    (n k : ℕ) (s : Text)
    → IsPadded k n s
    → is_fraction (fraction_of (front n s ++ tail_of n s)) ≡ true
is_fraction-print zero k s p =
    rw (append_nil (front 0 s), fraction_of-whole (front 0 s) (front-digits 0 k s p)) refl
is_fraction-print (suc n) k s p =
    let wide : 0 < length (back (suc n) s) = omega (arith, back-length (suc n) k s p) in
    let digits = back-digits (suc n) k s p in
    rw (fraction_of-digits (front (suc n) s) (back (suc n) s) (front-digits (suc n) k s p))
      (ground arith)

IsPrint-lem : (v : ℤ) (n k : ℕ) (s : Text) → IsPadded k n s → IsPrint v n s
IsPrint-lem v n k s p =
    let split = ap (λ t. signed v t) (pointed-split n s) in
    let unsigned =
      ap (λ t. unsigned_of t) split
      ∙ unsigned_of-signed v (front n s) (tail_of n s) (front-wide n k s p)
          (front-digits n k s p) in
    record {
      split = split;
      unsigned = unsigned;
      minus =
          ap (λ t. starts_minus t) split
          ∙ starts_minus-signed v (front n s) (tail_of n s) (front-wide n k s p)
              (front-digits n k s p);
      parted = record {
        whole = rw unsigned (whole_of-print n k s p);
        fraction = rw unsigned (fraction-print n k s p);
        width = back-length n k s p;
        nonempty = front-wide n k s p;
        digits = rw (take-append-drop (length s - n) s) p.digits;
      };
      decimal =
          rw (unsigned, whole_of-print n k s p, front-whole n k s p) (is_fraction-print n k s p);
    }

from_scaled-ok :
    (v : ℤ) (n : ℕ)
    → n ≤ 2 ^ 53 - 1
    → from_scaled_integer v (pos n) ≡ ok (signed v (pointed n (printed v n)))
unfolding from_scaled_integer decimal
from_scaled-ok v n h =
    let good : is_bad_digits (pos n) ≡ false = ground arith in
    let p =
      IsPrint-lem v n (magnitude v) (printed v n)
        (padded (magnitude v) n (to_text (magnitude v)) (to_text-IsNumeral (magnitude v))) in
    rw (good, p.decimal) refl

negated-magnitude : (v : ℤ) → negated (ltb_ℤ v (pos 0)) (pos (magnitude v)) ≡ v
unfolding ◌-ℤ◌
negated-magnitude (pos n) = ground arith
negated-magnitude (negsuc n) =
    let below : ltb_ℤ (negsuc n) (pos 0) ≡ true = ground arith in
    let less : leb (n + 1) 0 ≡ false = ground arith in
    let back_again : n + 1 - 0 - 1 ≡ n = omega arith in rw (below, less, back_again) refl

-- What is printed, with what the other two functions give for it.
pub record IsReadable (value : ℤ) (count : ℕ) : Type 0 where
  pub print : Text
  pub printed_as : from_scaled_integer value (pos count) ≡ ok print
  pub admitted : decimal print ≡ ok print
  pub read : to_scaled_integer print (pos count) ≡ ok value

pub readable : (v : ℤ) (n : ℕ) → n ≤ 2 ^ 53 - 1 → IsReadable v n
unfolding decimal
readable v n h =
    let s = printed v n in
    let good = padded (magnitude v) n (to_text (magnitude v)) (to_text-IsNumeral (magnitude v)) in
    let p = IsPrint-lem v n (magnitude v) s good in
    let read = to_scaled-parts (signed v (pointed n s)) (front n s) (back n s) n h p.parted in
    record {
      print = signed v (pointed n s);
      printed_as = from_scaled-ok v n h;
      admitted = rw p.decimal refl;
      read =
          read
          ∙ (rw (p.minus, take-append-drop (length s - n) s, good.value)
              (ap (λ x. ok x) (negated-magnitude v)));
    }

-- What is printed with an admissible number of fraction digits is a decimal text, and reads back as
-- the same integer with the same number of fraction digits.
pub from_scaled_integer-to_scaled_integer :
    (value : ℤ) (count : ℕ)
    → count ≤ 2 ^ 53 - 1
    → (from_scaled_integer value (pos count)
        >>= (λ s. decimal s >>= (λ t. to_scaled_integer t (pos count))))
      ≡ ok value
from_scaled_integer-to_scaled_integer value count h =
    let r = readable value count h in rw (r.printed_as, r.admitted, r.read) refl
