-- ===== src/Prelude/Dates.antt =====
-- `Date.parse` of a text of the form `YYYY-MM-DDTHH:mm:ss`, with a fraction of a second of at most three
-- digits or none, and an offset. As in ECMAScript a day up to 31 that its month does not have runs on
-- into the next month, hour 24 is the end of the day, and any other value out of its range gives NaN,
-- which is `none` here.
use Prim.Native.Nat.{ℕ, ◌+◌, ◌-◌, ◌*◌, ◌/◌, ◌%◌, ◌^◌}
use mathlib.Core.Path.{◌≡◌, refl}
use mathlib.Core.Bool.{Bool, not, ◌&&◌, ◌||◌}
use mathlib.Core.Option.{Option, none, some}
use mathlib.Core.List.{[], ◌∷◌}
use portfolio_rebalancer.Prelude.Tests.{ltb, leb, ◌==◌, if◌then◌else◌}
use portfolio_rebalancer.Prelude.Lists.{length, all}
use portfolio_rebalancer.Prelude.Int.{ℤ, pos, ◌+ℤ◌, ◌-ℤ◌, ◌*ℤ◌}
use portfolio_rebalancer.Prelude.Strings.{Text, text}
use portfolio_rebalancer.Prelude.Decimals.{is_digit, decimal_value}

abbrev pub is_leap : ℕ → Bool
is_leap year = year % 4 == 0 && (not (year % 100 == 0) || year % 400 == 0)

-- The days of the years from 0 on, up to this one.
abbrev days_before_year : ℕ → ℕ
days_before_year y = 365 * y + (y + 3) / 4 - (y + 99) / 100 + (y + 399) / 400

-- The days of a common year before a month.
abbrev days_before_month : ℕ → ℕ
days_before_month month = (367 * month - 362) / 12 - (if leb month 2 then 0 else 2)

abbrev leap_day : ℕ → ℕ → ℕ
leap_day year month = if is_leap year && leb 3 month then 1 else 0

-- The days from 1970 to a day.
abbrev day_number : ℕ → ℕ → ℕ → ℤ
day_number year month day =
    pos (days_before_year year + days_before_month month + leap_day year month + (day - 1))
    -ℤ pos 719528

-- The digits of a fraction of a second, in milliseconds.
abbrev milliseconds : Text → ℕ
milliseconds s = decimal_value 0 s * 10 ^ (3 - length s)

abbrev is_clock : ℕ → ℕ → ℕ → ℕ → Bool
is_clock hour minute second fraction =
    ltb minute 60
    && ltb second 60
    && (ltb hour 24 || hour == 24 && minute == 0 && second == 0 && fraction == 0)

-- An offset from UTC in milliseconds: Z, or hours and minutes behind a sign.
abbrev offset_milliseconds : Text → Option ℤ
offset_milliseconds (z ∷ []) = if z == 90 then some (pos 0) else none
offset_milliseconds (s ∷ h1 ∷ h2 ∷ c ∷ m1 ∷ m2 ∷ []) =
    let hours = decimal_value 0 (h1 ∷ h2 ∷ []) in
    let minutes = decimal_value 0 (m1 ∷ m2 ∷ []) in
    let size = pos ((hours * 60 + minutes) * 60000) in
    if not (all is_digit (h1 ∷ h2 ∷ m1 ∷ m2 ∷ []) && c == 58 && ltb hours 24 && ltb minutes 60)
    then none
    else if s == 43
    then some size
    else if s == 45
    then some (pos 0 -ℤ size)
    else none
offset_milliseconds _ = none

abbrev from_offset : ℤ → Option ℤ → Option ℤ
from_offset local none = none
from_offset local (some offset) = some (local -ℤ offset)

-- The digits that a text starts with, and what is behind them.
abbrev leading_digits : Text → Text
leading_digits [] = []
leading_digits (c ∷ s) = let rest = leading_digits s in if is_digit c then c ∷ rest else []

abbrev behind_digits : Text → Text
behind_digits [] = []
behind_digits (c ∷ s) = let rest = behind_digits s in if is_digit c then rest else c ∷ s

-- What stands behind the seconds: a fraction, if there is one, and the offset.
record Rest : Type 0 where
  fraction : Text
  offset : Text

abbrev rest_of : Text → Option Rest
rest_of [] = none
rest_of (c ∷ s) =
    let digits = leading_digits s in
    if not (c == 46)
    then some (record { fraction = []; offset = c ∷ s })
    else if ltb 0 (length digits) && leb (length digits) 3
    then some (record { fraction = digits; offset = behind_digits s })
    else none

abbrev timed : ℕ → ℕ → ℕ → ℕ → ℕ → ℕ → Option Rest → Option ℤ
timed year month day hour minute second none = none
timed year month day hour minute second (some rest) =
    let fraction = milliseconds rest.fraction in
    if not (
      leb 1 month
      && leb month 12
      && leb 1 day
      && leb day 31
      && is_clock hour minute second fraction)
    then none
    else from_offset
        (pos (((hour * 60 + minute) * 60 + second) * 1000 + fraction)
          +ℤ (day_number year month day *ℤ pos 86400000))
        (offset_milliseconds rest.offset)

unfoldable pub parse_offset_date_time : Text → Option ℤ
parse_offset_date_time
      (y1 ∷ y2 ∷ y3 ∷ y4 ∷ d1 ∷ o1 ∷ o2 ∷ d2 ∷ a1 ∷ a2 ∷ t ∷ h1 ∷ h2 ∷ c1 ∷ m1 ∷ m2 ∷ c2 ∷ s1 ∷ s2
        ∷ rest) =
    if not (
      all is_digit (y1 ∷ y2 ∷ y3 ∷ y4 ∷ o1 ∷ o2 ∷ a1 ∷ a2 ∷ h1 ∷ h2 ∷ m1 ∷ m2 ∷ s1 ∷ s2 ∷ [])
      && d1 == 45
      && d2 == 45
      && t == 84
      && c1 == 58
      && c2 == 58)
    then none
    else timed (decimal_value 0 (y1 ∷ y2 ∷ y3 ∷ y4 ∷ [])) (decimal_value 0 (o1 ∷ o2 ∷ []))
        (decimal_value 0 (a1 ∷ a2 ∷ [])) (decimal_value 0 (h1 ∷ h2 ∷ []))
        (decimal_value 0 (m1 ∷ m2 ∷ [])) (decimal_value 0 (s1 ∷ s2 ∷ [])) (rest_of rest)
parse_offset_date_time _ = none

parse_offset_date_time_epoch :
    parse_offset_date_time (text "2024-03-01T09:00:00.5+09:00") ≡ some (pos 1709251200500)
unfolding parse_offset_date_time ◌+ℤ◌ ◌-ℤ◌ ◌*ℤ◌
parse_offset_date_time_epoch = refl
