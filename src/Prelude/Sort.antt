-- ===== src/Prelude/Sort.antt =====
-- `[...xs].sort(compare)`: the stable sort, and what it keeps.
use Prim.Native.Nat.{◌+◌, Ordering}
use mathlib.Core.Path.{sym, ◌≡◌, refl, ◌∙◌}
use mathlib.Core.Logic.{inl, inr}
use mathlib.Core.Bool.{Bool, true, false, ◌||◌}
use mathlib.Core.List.{List, [], ◌∷◌, map}
use native.Mathlib.Omega.{arith}
use portfolio_rebalancer.Prelude.Tests.{if◌then◌else◌, Bool-cases}
use portfolio_rebalancer.Prelude.Lists.{length, All, All-map}
use portfolio_rebalancer.Prelude.Int.{ℤ, ◌+ℤ◌, sum_ℤ, sum_ℤ-cons, int_laws}
use portfolio_rebalancer.Prelude.Strings.{Text, text_eq, contains, Distinct}
use portfolio_rebalancer.Prelude.Keys.{text_eq_symm}

abbrev pub is_lt : Ordering → Bool
is_lt Ordering.lt = true
is_lt Ordering.eq = false
is_lt Ordering.gt = false

module _ {A : Type 0} (before : A → A → Ordering) where
  -- An element goes before the first one that does not precede it, so equal ones keep their order.
  unfoldable pub insert : A → List A → List A
  insert x [] = x ∷ []
  insert x (y ∷ ys) = if is_lt (before y x) then y ∷ insert x ys else x ∷ y ∷ ys

  unfoldable pub sort : List A → List A
  unfolding insert
  sort [] = []
  sort (x ∷ xs) = insert x (sort xs)

  length-insert : (x : A) (ys : List A) → length (insert x ys) ≡ length ys + 1
  unfolding insert
  length-insert x [] = omega arith
  length-insert x (y ∷ ys) = ground (arith, length-insert x ys)

  pub length-sort : (xs : List A) → length (sort xs) ≡ length xs
  unfolding sort
  length-sort [] = refl
  length-sort (x ∷ xs) = omega (arith, length-insert x (sort xs), length-sort xs)

  sum-insert : (f : A → ℤ) (x : A) (ys : List A) → sum_ℤ f (insert x ys) ≡ f x +ℤ sum_ℤ f ys
  unfolding insert
  sum-insert f x [] = sum_ℤ-cons f x []
  sum-insert f x (y ∷ ys) = elim (Bool-cases (is_lt (before y x))) [
    | inl first ↦
        rw first
          (rw (sum_ℤ-cons f y (insert x ys), sum_ℤ-cons f y ys, sum-insert f x ys) (omega int_laws))
    | inr other ↦ rw other (sum_ℤ-cons f x (y ∷ ys))
  ]

  pub sum-sort : (f : A → ℤ) (xs : List A) → sum_ℤ f (sort xs) ≡ sum_ℤ f xs
  unfolding sort
  sum-sort f [] = refl
  sum-sort f (x ∷ xs) = rw (sum-insert f x (sort xs), sum_ℤ-cons f x xs, sum-sort f xs) refl

  All-insert : (P : A → Type 0) (x : A) (ys : List A) → P x → All P ys → All P (insert x ys)
  unfolding insert
  All-insert P x [] p h = (p, tt)
  All-insert P x (y ∷ ys) p h = elim (Bool-cases (is_lt (before y x))) [
    | inl first ↦ rw first (h.0, All-insert P x ys p h.1)
    | inr other ↦ rw other (p, h)
  ]

  pub All-sort : (P : A → Type 0) (xs : List A) → All P xs → All P (sort xs)
  unfolding sort
  All-sort P [] h = tt
  All-sort P (x ∷ xs) h = All-insert P x (sort xs) h.0 (All-sort P xs h.1)

  insert-All : (P : A → Type 0) (x : A) (ys : List A) → All P (insert x ys) → P x × All P ys
  unfolding insert
  insert-All P x [] h = h
  insert-All P x (y ∷ ys) h = elim (Bool-cases (is_lt (before y x))) [
    | inl first ↦
        let h' : P y × All P (insert x ys) = rw first at h in
        let (p, rest) = insert-All P x ys h'.1 in (p, (h'.0, rest))
    | inr other ↦ let h' : P x × All P (y ∷ ys) = rw other at h in h'
  ]

  pub sort-All : (P : A → Type 0) (xs : List A) → All P (sort xs) → All P xs
  unfolding sort
  sort-All P [] h = tt
  sort-All P (x ∷ xs) h = let (p, rest) = insert-All P x (sort xs) h in (p, sort-All P xs rest)

  module _ (key : A → Text) where
    contains-insert :
        (x : A) (ys : List A) (k : Text)
        → contains (map key (insert x ys)) k ≡ (text_eq (key x) k || contains (map key ys) k)
    unfolding insert contains
    contains-insert x [] k = refl
    contains-insert x (y ∷ ys) k = ground (arith, contains-insert x ys k)

    pub contains-sort :
        (xs : List A) (k : Text) → contains (map key (sort xs)) k ≡ contains (map key xs) k
    unfolding sort contains
    contains-sort [] k = refl
    contains-sort (x ∷ xs) k = rw (contains-insert x (sort xs) k, contains-sort xs k) refl

    Distinct-insert :
        (x : A) (ys : List A)
        → contains (map key ys) (key x) ≡ false
        → Distinct (map key ys)
        → Distinct (map key (insert x ys))
    unfolding insert contains
    Distinct-insert x [] h d = (refl, tt)
    Distinct-insert x (y ∷ ys) h d =
        ground
          (arith, text_eq_symm (key x) (key y), contains-insert x ys (key y), Distinct-insert x ys)

    pub Distinct-sort : (xs : List A) → Distinct (map key xs) → Distinct (map key (sort xs))
    unfolding sort
    Distinct-sort [] d = tt
    Distinct-sort (x ∷ xs) d =
        Distinct-insert x (sort xs) (contains-sort xs (key x) ∙ d.0) (Distinct-sort xs d.1)

    insert-Distinct :
        (x : A) (ys : List A)
        → Distinct (map key (insert x ys))
        → (contains (map key ys) (key x) ≡ false) × Distinct (map key ys)
    unfolding insert contains
    insert-Distinct x [] d = (refl, tt)
    insert-Distinct x (y ∷ ys) d =
        ground
          (arith, text_eq_symm (key x) (key y), contains-insert x ys (key y), insert-Distinct x ys)

    pub sort-Distinct : (xs : List A) → Distinct (map key (sort xs)) → Distinct (map key xs)
    unfolding sort
    sort-Distinct [] d = tt
    sort-Distinct (x ∷ xs) d =
        let (fresh, rest) = insert-Distinct x (sort xs) d in
        (sym (contains-sort xs (key x)) ∙ fresh, sort-Distinct xs rest)

module _ {A : Type 0} (R : A → A → Type 0) where
  -- Every element stands in the relation to every later one.
  abbrev pub IsSorted : List A → Type 0
  IsSorted [] = Unit
  IsSorted (x ∷ xs) = All (R x) xs × IsSorted xs

  module _ (before : A → A → Ordering) (transitive : (x y z : A) → R x y → R y z → R x z)
      (earlier : (x y : A) → is_lt (before y x) ≡ true → R y x)
      (later : (x y : A) → is_lt (before y x) ≡ false → R x y) where
    insert-IsSorted : (x : A) (ys : List A) → IsSorted ys → IsSorted (insert before x ys)
    unfolding insert
    insert-IsSorted x [] s = (tt, tt)
    insert-IsSorted x (y ∷ ys) s = elim (Bool-cases (is_lt (before y x))) [
      | inl first ↦
          rw first (All-insert before (R y) x ys (earlier x y first) s.0, insert-IsSorted x ys s.1)
      | inr other ↦
          let r = later x y other in rw other ((r, All-map (λ z q. transitive x y z r q) ys s.0), s)
    ]

    -- A sort by a comparator that agrees with the relation puts the array in that order.
    pub sort-IsSorted : (xs : List A) → IsSorted (sort before xs)
    unfolding sort
    sort-IsSorted [] = tt
    sort-IsSorted (x ∷ xs) = insert-IsSorted x (sort before xs) (sort-IsSorted xs)
