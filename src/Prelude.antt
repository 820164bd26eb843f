-- ===== src/Prelude.antt =====
-- The names that the modules of this library share: those of the libraries, passed on, and
-- helpers for tests, lists, bigints, texts, keys, sorting and results.
mod Tests
mod Lists
mod Int
mod Strings
mod Results
mod Keys
mod Sort
mod Sums
mod Maps
mod Numerals
mod Decimals
mod Digits
mod Dates
pub use Tests.*
pub use Lists.*
unfoldable pub use Int.{◌+ℤ◌, ◌-ℤ◌, ◌*ℤ◌, ◌/ℤ◌, ◌%ℤ◌, sum_ℤ, sum_from}
pub use Int.*
unfoldable pub use Strings.{compare_text, contains, set_of, set_from, text_eq}
pub use Strings.*
unfoldable pub use Results.{map_ok, for_each}
pub use Results.*
pub use Keys.*
unfoldable pub use Sort.{sort, insert}
pub use Sort.*
pub use Sums.*
unfoldable pub use Maps.{map_get, map_set, map_of, map_from}
pub use Maps.*
unfoldable pub use Numerals.{big_int, digits_from}
pub use Numerals.*
unfoldable pub use Decimals.{to_text, digits_of}
pub use Decimals.*
pub use Digits.*
unfoldable pub use Dates.{parse_offset_date_time}
pub use Dates.*
pub use Prim.Native.Nat.{ℕ, zero, suc, ◌+◌, ◌-◌, ◌*◌, ◌/◌, ◌%◌, ◌^◌, ◌≤◌, ◌<◌, compare, Ordering}
pub use mathlib.Core.Path.{◌≡◌, refl, sym, ap, subst, ◌∙◌, ◌≡⟨◌⟩◌, ◌∎}
pub use mathlib.Core.Logic.{◌≢◌, ◌↔◌, ◌⊎◌, inl, inr}
pub use mathlib.Core.Bool.{Bool, true, false, not, ◌&&◌, ◌||◌}
pub use mathlib.Core.Option.{Option, none, some}
pub use mathlib.Core.List.{List, [], ◌∷◌, ◌++◌, map}
pub use native.Mathlib.Omega.{arith}
