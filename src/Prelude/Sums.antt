-- ===== src/Prelude/Sums.antt =====
-- Sums of natural numbers over an array, sums of bigints that are not negative, and sums of
-- quotients that are rounded down.
use Prim.Native.Nat.{ℕ, ◌+◌, ◌-◌, ◌*◌, ◌/◌, ◌≤◌, ◌<◌}
use mathlib.Core.Path.{◌≡◌, refl, sym, ◌∙◌}
use mathlib.Core.List.{List, [], ◌∷◌, map}
use native.Mathlib.Nat.{le_of_mul-le-mul_right, lt_of_mul-lt-mul_right}
use native.Mathlib.Omega.{arith}
use portfolio_rebalancer.Prelude.Lists.{length, All, All-map, All2}
use portfolio_rebalancer.Prelude.Int.{
  ℤ, pos, negsuc, ◌+ℤ◌, ◌-ℤ◌, ◌*ℤ◌, ◌/ℤ◌, ◌≤ℤ◌, ◌<ℤ◌, int_laws, sum_ℤ, sum_ℤ-nil, sum_ℤ-cons,
}

abbrev pub sum : {A : Type 0} → (A → ℕ) → List A → ℕ
sum f [] = 0
sum f (x ∷ xs) = f x + sum f xs

module _ {A : Type 0} where
  pub sum_ℤ-pos :
      (f : A → ℤ) (g : A → ℕ) (xs : List A)
      → All (λ x. f x ≡ pos (g x)) xs
      → sum_ℤ f xs ≡ pos (sum g xs)
  unfolding ◌+ℤ◌
  sum_ℤ-pos f g [] h = sum_ℤ-nil f
  sum_ℤ-pos f g (x ∷ xs) h = rw (sum_ℤ-cons f x xs, h.0, sum_ℤ-pos f g xs h.1) refl

  pub sum_ℤ-congr : (f g : A → ℤ) (xs : List A) → All (λ x. f x ≡ g x) xs → sum_ℤ f xs ≡ sum_ℤ g xs
  sum_ℤ-congr f g [] h = sum_ℤ-nil f ∙ sym (sum_ℤ-nil g)
  sum_ℤ-congr f g (x ∷ xs) h =
      rw (sum_ℤ-cons f x xs, sum_ℤ-cons g x xs, h.0, sum_ℤ-congr f g xs h.1) refl

  pub sum_ℤ-map :
      {B : Type 0} (f : B → ℤ) (g : A → B) (xs : List A)
      → sum_ℤ f (map g xs) ≡ sum_ℤ (λ x. f (g x)) xs
  sum_ℤ-map f g [] = sum_ℤ-nil f ∙ sym (sum_ℤ-nil (λ x. f (g x)))
  sum_ℤ-map f g (x ∷ xs) =
      rw (sum_ℤ-cons f (g x) (map g xs), sum_ℤ-cons (λ y. f (g y)) x xs, sum_ℤ-map f g xs) refl

  pub sum_mul : (c : ℕ) (f : A → ℕ) (xs : List A) → sum (λ x. c * f x) xs ≡ c * sum f xs
  sum_mul c f [] = omega arith
  sum_mul c f (x ∷ xs) = omega (arith, sum_mul c f xs)

quotient_bounds : (d a : ℕ) → 0 < d → (a / d * d ≤ a) × (a + 1 ≤ (a / d + 1) * d)
quotient_bounds d a h = (grind arith, grind arith)

module _ {A : Type 0} (d : ℕ) (positive : 0 < d) (f : A → ℕ) where
  -- Quotients that are rounded down fall short of the whole by less than one each.
  pub floors-bound :
      (xs : List A)
      → (sum (λ x. f x / d) xs * d ≤ sum f xs)
        × (sum f xs + length xs ≤ (sum (λ x. f x / d) xs + length xs) * d)
  floors-bound [] = (omega arith, omega arith)
  floors-bound (x ∷ xs) =
      let (below, above) = floors-bound xs in
      let (low, high) = quotient_bounds d (f x) positive in (omega arith, omega arith)

  pub floors-share :
      (n : ℕ) (xs : List A)
      → sum f xs ≡ n * d
      → (sum (λ x. f x / d) xs ≤ n) × (n ≤ sum (λ x. f x / d) xs + length xs)
  floors-share n xs e =
      let (below, above) = floors-bound xs in
      (le_of_mul-le-mul_right (omega arith) positive, le_of_mul-le-mul_right (omega arith) positive)

  pub floors-share_strict :
      (n : ℕ) (xs : List A)
      → sum f xs ≡ n * d
      → 0 < length xs
      → n < sum (λ x. f x / d) xs + length xs
  floors-share_strict n xs e h =
      let (below, above) = floors-bound xs in lt_of_mul-lt-mul_right d (omega arith)

-- No term is larger than the sum.
pub All-le-sum : {A : Type 0} (f : A → ℕ) (xs : List A) → All (λ x. f x ≤ sum f xs) xs
All-le-sum f [] = tt
All-le-sum f (x ∷ xs) = (omega arith, All-map (λ y h. omega arith) xs (All-le-sum f xs))

-- A sum of differences is the difference of the sums.
pub sum_ℤ-sub :
    {A : Type 0} (f g : A → ℤ) (xs : List A) → sum_ℤ (λ x. f x -ℤ g x) xs ≡ sum_ℤ f xs -ℤ sum_ℤ g xs
sum_ℤ-sub f g [] = rw (sum_ℤ-nil (λ x. f x -ℤ g x), sum_ℤ-nil f, sum_ℤ-nil g) (omega int_laws)
sum_ℤ-sub f g (x ∷ xs) =
    rw (sum_ℤ-cons (λ y. f y -ℤ g y) x xs, sum_ℤ-cons f x xs, sum_ℤ-cons g x xs, sum_ℤ-sub f g xs)
      (omega int_laws)

pub sum_ℤ-add :
    {A : Type 0} (f g : A → ℤ) (xs : List A) → sum_ℤ (λ x. f x +ℤ g x) xs ≡ sum_ℤ f xs +ℤ sum_ℤ g xs
sum_ℤ-add f g [] = rw (sum_ℤ-nil (λ x. f x +ℤ g x), sum_ℤ-nil f, sum_ℤ-nil g) (omega int_laws)
sum_ℤ-add f g (x ∷ xs) =
    rw (sum_ℤ-cons (λ y. f y +ℤ g y) x xs, sum_ℤ-cons f x xs, sum_ℤ-cons g x xs, sum_ℤ-add f g xs)
      (omega int_laws)

-- A quotient of bigints that are not negative, rounded down.
pub quotient_lem :
    (a d : ℤ)
    → pos 0 ≤ℤ a
    → pos 0 <ℤ d
    → (pos 0 ≤ℤ a /ℤ d) × (a /ℤ d *ℤ d ≤ℤ a) × (a <ℤ a /ℤ d *ℤ d +ℤ d)
unfolding ◌/ℤ◌ ◌*ℤ◌ ◌+ℤ◌
quotient_lem (pos a) (pos d) h k =
    let (low, high) = quotient_bounds d a (omega arith) in (omega arith, omega arith, omega arith)
quotient_lem (negsuc a) d h k = absurd (omega arith)
quotient_lem (pos a) (negsuc d) h k = absurd (omega arith)

pub zero-*ℤ : (d : ℤ) → pos 0 *ℤ d ≡ pos 0
unfolding ◌*ℤ◌
zero-*ℤ d = ground arith

pub sum_ℤ-All2 :
    {A B : Type 0} (p : A → ℤ) (q : B → ℤ) (xs : List A) (ys : List B)
    → All2 (λ x y. p x ≡ q y) xs ys
    → sum_ℤ p xs ≡ sum_ℤ q ys
sum_ℤ-All2 p q [] [] h = sum_ℤ-nil p ∙ sym (sum_ℤ-nil q)
sum_ℤ-All2 p q [] (y ∷ ys) h = elim h [ ]
sum_ℤ-All2 p q (x ∷ xs) [] h = elim h [ ]
sum_ℤ-All2 p q (x ∷ xs) (y ∷ ys) h =
    rw (sum_ℤ-cons p x xs, sum_ℤ-cons q y ys, h.0, sum_ℤ-All2 p q xs ys h.1) refl

*_grows : (a b c d : ℕ) → a * c ≤ (a + b) * (c + d)
*_grows a b c d = omega arith

*_mono : (a b c d : ℕ) → a ≤ b → c ≤ d → a * c ≤ b * d
*_mono a b c d h k =
    let left : b ≡ a + (b - a) = omega arith in
    let right : d ≡ c + (d - c) = omega arith in rw (left, right) (*_grows a (b - a) c (d - c))

pub *ℤ_mono : (a b c d : ℤ) → pos 0 ≤ℤ a → a ≤ℤ b → pos 0 ≤ℤ c → c ≤ℤ d → a *ℤ c ≤ℤ b *ℤ d
unfolding ◌*ℤ◌
*ℤ_mono (pos a) (pos b) (pos c) (pos d) a0 h c0 k =
    let left : a ≤ b = omega arith in
    let right : c ≤ d = omega arith in omega (arith, *_mono a b c d left right)
*ℤ_mono (negsuc a) b c d a0 h c0 k = absurd (omega arith)
*ℤ_mono a (negsuc b) c d a0 h c0 k = absurd (omega arith)
*ℤ_mono a b (negsuc c) d a0 h c0 k = absurd (omega arith)
*ℤ_mono a b c (negsuc d) a0 h c0 k = absurd (omega arith)
