-- ===== src/Prelude/Numerals.antt =====
-- `BigInt(text)`: white space around it is dropped, an empty text is 0, a sign may stand before decimal
-- digits, and 0x, 0o and 0b, in either case, announce another base. Where the source throws a
-- SyntaxError there is no number.
use Prim.Native.Nat.{ℕ, ◌+◌, ◌-◌, ◌*◌}
use mathlib.Core.Path.{◌≡◌, refl}
use mathlib.Core.Bool.{◌&&◌, ◌||◌}
use mathlib.Core.Option.{Option, none, some}
use mathlib.Core.List.{[], ◌∷◌, ◌++◌}
use portfolio_rebalancer.Prelude.Tests.{ltb, leb, ◌==◌, if◌then◌else◌}
use portfolio_rebalancer.Prelude.Int.{ℤ, pos, negate}
use portfolio_rebalancer.Prelude.Strings.{Text, text, is_space}

-- The value of a digit or letter; 36, in no base, for any other code unit.
abbrev pub digit_value : ℕ → ℕ
digit_value c =
    if leb 48 c && leb c 57
    then c - 48
    else if leb 97 c && leb c 122
    then c - 87
    else if leb 65 c && leb c 90
    then c - 55
    else 36

-- `s` behind the digits of the number `acc`.
unfoldable pub digits_from : ℕ → ℕ → Text → Option ℕ
digits_from base acc [] = some acc
digits_from base acc (c ∷ s) =
    let rest = digits_from base (acc * base + digit_value c) s in
    if ltb (digit_value c) base then rest else none

-- One digit at least.
abbrev pub digits_in : ℕ → Text → Option ℕ
digits_in base [] = none
digits_in base (c ∷ s) = digits_from base 0 (c ∷ s)

abbrev pub drop_spaces : Text → Text
drop_spaces [] = []
drop_spaces (c ∷ s) = if is_space c then drop_spaces s else c ∷ s

abbrev pub reversed : Text → Text
reversed [] = []
reversed (c ∷ s) = reversed s ++ c ∷ []

-- `text.trim()`
abbrev pub trim : Text → Text
trim s = reversed (drop_spaces (reversed (drop_spaces s)))

abbrev as_positive : Option ℕ → Option ℤ
as_positive none = none
as_positive (some n) = some (pos n)

abbrev as_negative : Option ℕ → Option ℤ
as_negative none = none
as_negative (some n) = some (negate n)

-- A text that starts with 0 and the code unit `mark`.
abbrev prefixed : ℕ → Text → Option ℕ
prefixed mark s =
    if mark == 120 || mark == 88
    then digits_in 16 s
    else if mark == 111 || mark == 79
    then digits_in 8 s
    else if mark == 98 || mark == 66
    then digits_in 2 s
    else digits_in 10 (48 ∷ mark ∷ s)

-- A text without white space around it.
abbrev pub trimmed_number : Text → Option ℤ
trimmed_number [] = some (pos 0)
trimmed_number (c ∷ []) = as_positive (digits_in 10 (c ∷ []))
trimmed_number (c ∷ d ∷ s) =
    if c == 48
    then as_positive (prefixed d s)
    else if c == 45
    then as_negative (digits_in 10 (d ∷ s))
    else if c == 43
    then as_positive (digits_in 10 (d ∷ s))
    else as_positive (digits_in 10 (c ∷ d ∷ s))

unfoldable pub big_int : Text → Option ℤ
unfolding digits_from
big_int s = trimmed_number (trim s)

big_int_decimal : big_int (text " 100000 ") ≡ some (pos 100000)
unfolding big_int digits_from
big_int_decimal = refl

big_int_negative : big_int (text "-25") ≡ some (negate 25)
unfolding big_int digits_from
big_int_negative = refl

big_int_prefixed : big_int (text "0xfF") ≡ some (pos 255)
unfolding big_int digits_from
big_int_prefixed = refl

big_int_refused : big_int (text "1e5") ≡ none
unfolding big_int digits_from
big_int_refused = refl
