-- ===== src/Prelude/Maps.antt =====
-- A `Map` with string keys, as its entries in insertion order.
use mathlib.Core.Path.{◌≡◌, refl, ◌∙◌}
use mathlib.Core.Bool.{false}
use mathlib.Core.Option.{Option, none, some}
use mathlib.Core.List.{List, [], ◌∷◌, map}
use native.Mathlib.Omega.{arith}
use portfolio_rebalancer.Prelude.Tests.{if◌then◌else◌}
use portfolio_rebalancer.Prelude.Lists.{All}
use portfolio_rebalancer.Prelude.Strings.{
  Text, text_eq, text_eq_iff, text_eq_refl, contains, Distinct,
}

abbrev pub TextMap : Type 0 → Type 0
TextMap V = List (Text × V)

module _ {V : Type 0} where
  -- `map.get(k)`
  unfoldable pub map_get : Text → TextMap V → Option V
  map_get k [] = none
  map_get k ((j, v) ∷ m) = if text_eq j k then some v else map_get k m

  -- `map.set(k, v)`: a known key keeps its place.
  unfoldable pub map_set : Text → V → TextMap V → TextMap V
  map_set k v [] = (k, v) ∷ []
  map_set k v ((j, w) ∷ m) = if text_eq j k then (j, v) ∷ m else (j, w) ∷ map_set k v m

  -- `new Map(entries)` on top of a map.
  unfoldable pub map_from : TextMap V → List (Text × V) → TextMap V
  unfolding map_set
  map_from m [] = m
  map_from m ((k, v) ∷ es) = map_from (map_set k v m) es

  unfoldable pub map_of : List (Text × V) → TextMap V
  unfolding map_from
  map_of es = map_from [] es

  pub map_get-set :
      (k j : Text) (v : V) (m : TextMap V)
      → map_get j (map_set k v m) ≡ (if text_eq k j then some v else map_get j m)
  unfolding map_get map_set
  map_get-set k j v [] = refl
  map_get-set k j v ((i, w) ∷ m) =
      ground (arith, text_eq_iff k j, text_eq_iff i k, text_eq_iff i j, map_get-set k j v m)

  map_get-from_other :
      (k : Text) (m : TextMap V) (es : List (Text × V))
      → contains (map (λ e. e.0) es) k ≡ false
      → map_get k (map_from m es) ≡ map_get k m
  unfolding map_from contains
  map_get-from_other k m [] h = refl
  map_get-from_other k m ((j, v) ∷ es) h =
      ground (arith, map_get-set j k v m, map_get-from_other k (map_set j v m) es)

  -- A map that is built from entries with different keys gives each of them back.
  pub map_get-from :
      (m : TextMap V) (es : List (Text × V))
      → Distinct (map (λ e. e.0) es)
      → All (λ e. map_get e.0 (map_from m es) ≡ some e.1) es
  unfolding map_from
  map_get-from m [] d = tt
  map_get-from m ((k, v) ∷ es) d = (
    map_get-from_other k (map_set k v m) es d.0 ∙ map_get-set k k v m ∙ (rw (text_eq_refl k) refl),
    map_get-from (map_set k v m) es d.1,
  )
