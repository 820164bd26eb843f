-- ===== src/Prelude/Keys.antt =====
-- What the `Set` of the source decides: `new Set(xs).size === xs.length` says that no text is
-- repeated, and `has` on a set of an array asks the array.
use Prim.Native.Nat.{◌+◌, ◌≤◌}
use mathlib.Core.Path.{◌≡◌, refl}
use mathlib.Core.Logic.{◌↔◌, inl, inr}
use mathlib.Core.Bool.{false, ◌||◌}
use mathlib.Core.List.{List, [], ◌∷◌, ◌++◌, map}
use mathlib.Core.Option.{some}
use native.Mathlib.Omega.{arith}
use portfolio_rebalancer.Prelude.Tests.{Bool-cases}
use portfolio_rebalancer.Prelude.Lists.{length, All, All-zip, find}
use portfolio_rebalancer.Prelude.Strings.{
  Text, text_eq, text_eq_iff, text_eq_refl, contains, set_from, set_of, Distinct,
}

pub text_eq_symm : (s t : Text) → text_eq s t ≡ text_eq t s
text_eq_symm s t = ground (arith, text_eq_iff s t, text_eq_iff t s)

pub contains-append :
    (xs ys : List Text) (x : Text) → contains (xs ++ ys) x ≡ (contains xs x || contains ys x)
unfolding contains
contains-append [] ys x = refl
contains-append (z ∷ xs) ys x = ground (arith, contains-append xs ys x)

pub contains-set_from :
    (seen xs : List Text) (x : Text)
    → contains (set_from seen xs) x ≡ (contains seen x || contains xs x)
unfolding set_from contains
contains-set_from seen [] x = ground arith
contains-set_from seen (y ∷ xs) x = ground (
  arith,
  text_eq_iff y x,
  contains-append seen (y ∷ []) x,
  contains-set_from seen xs x,
  contains-set_from (seen ++ y ∷ []) xs x,
)

pub contains-set_of : (xs : List Text) (x : Text) → contains (set_of xs) x ≡ contains xs x
unfolding set_of contains
contains-set_of xs x = contains-set_from [] xs x

-- No element of the second list is in the first.
abbrev pub Apart : List Text → List Text → Type 0
Apart seen xs = All (λ x. contains seen x ≡ false) xs

length-append_one : (xs : List Text) (x : Text) → length (xs ++ x ∷ []) ≡ length xs + 1
length-append_one [] x = omega arith
length-append_one (y ∷ xs) x = omega (arith, length-append_one xs x)

length-set_from-le : (seen xs : List Text) → length (set_from seen xs) ≤ length seen + length xs
unfolding set_from
length-set_from-le seen [] = omega arith
length-set_from-le seen (x ∷ xs) = ground (
  arith,
  length-append_one seen x,
  length-set_from-le seen xs,
  length-set_from-le (seen ++ x ∷ []) xs,
)

Apart-append_one :
    (seen : List Text) (x : Text) (xs : List Text)
    → Apart (seen ++ x ∷ []) xs
    → Apart seen xs × (contains xs x ≡ false)
unfolding contains
Apart-append_one seen x [] h = (tt, refl)
Apart-append_one seen x (y ∷ xs) h =
    ground
      (arith, contains-append seen (x ∷ []) y, text_eq_symm x y, Apart-append_one seen x xs h.1)

append_one-Apart :
    (seen : List Text) (x : Text) (xs : List Text)
    → Apart seen xs
    → contains xs x ≡ false
    → Apart (seen ++ x ∷ []) xs
unfolding contains
append_one-Apart seen x [] h k = tt
append_one-Apart seen x (y ∷ xs) h k =
    ground
      (arith, contains-append seen (x ∷ []) y, text_eq_symm x y, append_one-Apart seen x xs h.1)

full-Distinct :
    (seen xs : List Text)
    → length (set_from seen xs) ≡ length seen + length xs
    → Apart seen xs × Distinct xs
unfolding set_from
full-Distinct seen [] h = (tt, tt)
full-Distinct seen (x ∷ xs) h = elim (Bool-cases (contains seen x)) [
  | inl old ↦ absurd (ground (arith, length-set_from-le seen xs))
  | inr new ↦
      let (apart, distinct) =
        full-Distinct (seen ++ x ∷ []) xs (ground (arith, length-append_one seen x)) in
      let (apart', fresh) = Apart-append_one seen x xs apart in ((new, apart'), (fresh, distinct))
]

Distinct-full :
    (seen xs : List Text)
    → Apart seen xs
    → Distinct xs
    → length (set_from seen xs) ≡ length seen + length xs
unfolding set_from
Distinct-full seen [] h k = omega arith
Distinct-full seen (x ∷ xs) h k = rw h.0 (
    omega (
      arith,
      length-append_one seen x,
      Distinct-full (seen ++ x ∷ []) xs (append_one-Apart seen x xs h.1 k.0) k.1,
    ))

nil-Apart : (xs : List Text) → Apart [] xs
unfolding contains
nil-Apart [] = tt
nil-Apart (x ∷ xs) = (refl, nil-Apart xs)

-- The size of the set is the length of the array exactly when no text is repeated.
pub length-set_of_iff : (xs : List Text) → (length (set_of xs) ≡ length xs) ↔ Distinct xs
unfolding set_of
length-set_of_iff xs = (
  λ h. (full-Distinct [] xs (omega arith)).1,
  λ d. omega (arith, Distinct-full [] xs (nil-Apart xs) d),
)

not-contains-append :
    (xs ys : List Text) (x : Text)
    → contains (xs ++ ys) x ≡ false
    → (contains xs x ≡ false) × (contains ys x ≡ false)
not-contains-append xs ys x h = ground (arith, contains-append xs ys x)

cons-Apart :
    (x : Text) (xs ys : List Text) → contains ys x ≡ false → Apart xs ys → Apart (x ∷ xs) ys
unfolding contains
cons-Apart x xs [] h a = tt
cons-Apart x xs (y ∷ ys) h a = ground (arith, text_eq_symm x y, cons-Apart x xs ys)

-- Two parts of an array without repetitions share nothing.
pub Distinct-append :
    (xs ys : List Text) → Distinct (xs ++ ys) → Distinct xs × Distinct ys × Apart xs ys
Distinct-append [] ys d = (tt, d, nil-Apart ys)
Distinct-append (x ∷ xs) ys d =
    let (dx, dy, apart) = Distinct-append xs ys d.1 in
    let fresh = not-contains-append xs ys x d.0 in
    ((fresh.0, dx), dy, cons-Apart x xs ys fresh.1 apart)

-- Elements with different keys are found by them.
module _ {A : Type 0} (key : A → Text) where
  others-differ :
      (k : Text) (xs : List A)
      → contains (map key xs) k ≡ false
      → All (λ x. text_eq k (key x) ≡ false) xs
  unfolding contains
  others-differ k [] h = tt
  others-differ k (x ∷ xs) h =
      (ground (arith, text_eq_symm (key x) k), others-differ k xs (ground arith))

  pub All-found :
      (xs : List A)
      → Distinct (map key xs)
      → All (λ x. find (λ y. text_eq (key y) (key x)) xs ≡ some x) xs
  All-found [] d = tt
  All-found (x ∷ xs) d = (
    rw (text_eq_refl (key x)) refl,
    All-zip (λ y differs found. rw differs found) xs (others-differ (key x) xs d.0)
        (All-found xs d.1),
  )
