-- ===== src/Prelude/Decimals.antt =====
-- Decimal texts: the patterns that the source tests, `split(".")`, `toString()` and `padStart` on
-- natural numbers.
use Prim.Native.Nat.{ℕ, zero, suc, ◌+◌, ◌-◌, ◌*◌, ◌/◌, ◌%◌}
use mathlib.Core.Path.{◌≡◌, refl}
use mathlib.Core.Bool.{Bool, true, false, not, ◌&&◌, ◌||◌}
use mathlib.Core.Option.{Option, none, some}
use mathlib.Core.List.{[], ◌∷◌, ◌++◌}
use portfolio_rebalancer.Prelude.Tests.{ltb, leb, ◌==◌, if◌then◌else◌}
use portfolio_rebalancer.Prelude.Lists.{length, all}
use portfolio_rebalancer.Prelude.Strings.{Text, text}
use portfolio_rebalancer.Prelude.Numerals.{digit_value}

abbrev pub is_digit : ℕ → Bool
is_digit c = leb 48 c && leb c 57

-- `(?:0|[1-9]\d*)`
abbrev pub is_whole : Text → Bool
is_whole [] = false
is_whole (c ∷ s) = is_digit c && all is_digit s && (not (c == 48) || length s == 0)

-- `(?:\.\d+)?`, of the part behind the first point, if there is one.
abbrev pub is_fraction : Option Text → Bool
is_fraction none = true
is_fraction (some s) = ltb 0 (length s) && all is_digit s

-- The text before its first point.
abbrev pub whole_of : Text → Text
whole_of [] = []
whole_of (c ∷ s) = let rest = whole_of s in if c == 46 then [] else c ∷ rest

-- The text behind its first point.
abbrev pub fraction_of : Text → Option Text
fraction_of [] = none
fraction_of (c ∷ s) = let rest = fraction_of s in if c == 46 then some s else rest

-- `fraction = ""`
abbrev pub or_empty : Option Text → Text
or_empty none = []
or_empty (some s) = s

-- `BigInt` of digits.
abbrev pub decimal_value : ℕ → Text → ℕ
decimal_value acc [] = acc
decimal_value acc (c ∷ s) = decimal_value (acc * 10 + digit_value c) s

-- `n.toString()`, where fuel is more than `n`.
unfoldable pub digits_of : ℕ → ℕ → Text
digits_of zero n = []
digits_of (suc fuel) n = elim (ltb n 10) [
  | true ↦ (48 + n) ∷ []
  | false ↦ digits_of fuel (n / 10) ++ (48 + n % 10) ∷ []
]

unfoldable pub to_text : ℕ → Text
unfolding digits_of
to_text n = digits_of (suc n) n

-- So many zeros before the text.
abbrev pub zeros : ℕ → Text → Text
zeros zero s = s
zeros (suc n) s = 48 ∷ zeros n s

-- `s.padStart(width, "0")`
abbrev pub pad_start : ℕ → Text → Text
pad_start width s = zeros (width - length s) s

to_text_1203 : to_text 1203 ≡ text "1203"
unfolding to_text digits_of
to_text_1203 = refl
