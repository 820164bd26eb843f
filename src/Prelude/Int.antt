-- ===== src/Prelude/Int.antt =====
-- `bigint` as the integers over the native numbers. Division truncates toward zero and a remainder
-- has the sign of the dividend; a zero divisor, where the source throws a RangeError, gives 0
-- (the remainder is then the dividend): every modelled division stands behind a positivity guard.
use Prim.Native.Nat.{ℕ, suc, ◌+◌, ◌-◌, ◌*◌, ◌/◌, ◌%◌, ◌≤◌, ◌<◌}
use mathlib.Core.Path.{◌≡◌, refl}
use mathlib.Core.Logic.{◌↔◌}
use mathlib.Core.Bool.{Bool, true, false}
use mathlib.Core.List.{List, [], ◌∷◌, ◌++◌}
use native.Mathlib.Omega.{arith}
use portfolio_rebalancer.Prelude.Tests.{ltb, leb, ◌==◌, if◌then◌else◌}

-- `negsuc n` is -(n + 1).
pub data ℤ : Type 0 where
  pos : ℕ → ℤ
  negsuc : ℕ → ℤ

abbrev pub pos_part : ℤ → ℕ
pos_part (pos n) = n
pos_part (negsuc n) = 0

abbrev pub neg_part : ℤ → ℕ
neg_part (pos n) = 0
neg_part (negsuc n) = suc n

-- a - b, as an integer.
abbrev pub sub_ℕ : ℕ → ℕ → ℤ
sub_ℕ a b = if leb b a then pos (a - b) else negsuc (b - a - 1)

infixl 65 ◌+ℤ◌ ◌-ℤ◌
infixl 70 ◌*ℤ◌ ◌/ℤ◌ ◌%ℤ◌
infix 50 ◌≤ℤ◌ ◌<ℤ◌
unfoldable pub ◌+ℤ◌ : ℤ → ℤ → ℤ
pos a +ℤ pos b = pos (a + b)
pos a +ℤ negsuc b = sub_ℕ a (suc b)
negsuc a +ℤ pos b = sub_ℕ b (suc a)
negsuc a +ℤ negsuc b = negsuc (suc (a + b))

unfoldable pub ◌-ℤ◌ : ℤ → ℤ → ℤ
pos a -ℤ pos b = sub_ℕ a b
pos a -ℤ negsuc b = pos (a + suc b)
negsuc a -ℤ pos b = negsuc (a + b)
negsuc a -ℤ negsuc b = sub_ℕ b a

abbrev pub negate : ℕ → ℤ
negate n = sub_ℕ 0 n

unfoldable pub ◌*ℤ◌ : ℤ → ℤ → ℤ
pos a *ℤ pos b = pos (a * b)
pos a *ℤ negsuc b = negate (a * suc b)
negsuc a *ℤ pos b = negate (suc a * b)
negsuc a *ℤ negsuc b = pos (suc a * suc b)

unfoldable pub ◌/ℤ◌ : ℤ → ℤ → ℤ
pos a /ℤ pos b = pos (a / b)
pos a /ℤ negsuc b = negate (a / suc b)
negsuc a /ℤ pos b = negate (suc a / b)
negsuc a /ℤ negsuc b = pos (suc a / suc b)

unfoldable pub ◌%ℤ◌ : ℤ → ℤ → ℤ
pos a %ℤ pos b = pos (a % b)
pos a %ℤ negsuc b = pos (a % suc b)
negsuc a %ℤ pos b = negate (suc a % b)
negsuc a %ℤ negsuc b = negate (suc a % suc b)

abbrev pub ◌≤ℤ◌ : ℤ → ℤ → Type 0
a ≤ℤ b = pos_part a + neg_part b ≤ pos_part b + neg_part a

abbrev pub ◌<ℤ◌ : ℤ → ℤ → Type 0
a <ℤ b = pos_part a + neg_part b < pos_part b + neg_part a

abbrev pub ltb_ℤ : ℤ → ℤ → Bool
ltb_ℤ a b = ltb (pos_part a + neg_part b) (pos_part b + neg_part a)

abbrev pub leb_ℤ : ℤ → ℤ → Bool
leb_ℤ a b = leb (pos_part a + neg_part b) (pos_part b + neg_part a)

abbrev pub eq_ℤ : ℤ → ℤ → Bool
eq_ℤ a b = pos_part a + neg_part b == pos_part b + neg_part a

pub +ℤ_parts :
    (a b : ℤ)
    → pos_part (a +ℤ b) + neg_part a + neg_part b ≡ neg_part (a +ℤ b) + pos_part a + pos_part b
unfolding ◌+ℤ◌
+ℤ_parts a b = ground arith

pub -ℤ_parts :
    (a b : ℤ)
    → pos_part (a -ℤ b) + neg_part a + pos_part b ≡ neg_part (a -ℤ b) + pos_part a + neg_part b
unfolding ◌-ℤ◌
-ℤ_parts a b = ground arith

pub eq_of_parts : (a b : ℤ) → pos_part a + neg_part b ≡ pos_part b + neg_part a → a ≡ b
eq_of_parts a b h = ground arith

pub ruleset int_laws = (arith, +ℤ_parts, -ℤ_parts, eq_of_parts)

pub ltb_ℤ_iff : (a b : ℤ) → (ltb_ℤ a b ≡ true) ↔ (a <ℤ b)
ltb_ℤ_iff a b = ground arith

pub leb_ℤ_iff : (a b : ℤ) → (leb_ℤ a b ≡ true) ↔ (a ≤ℤ b)
leb_ℤ_iff a b = ground arith

pub ltb_ℤ-false_iff : (a b : ℤ) → (ltb_ℤ a b ≡ false) ↔ (b ≤ℤ a)
ltb_ℤ-false_iff a b = ground arith

-- A value that is not negative is a natural number.
pub eq-pos : (a : ℤ) → pos 0 ≤ℤ a → a ≡ pos (pos_part a)
eq-pos (pos n) h = refl
eq-pos (negsuc n) h = absurd (omega arith)

module _ {ℓ} {A : Type ℓ} (f : A → ℤ) where
  -- `xs.reduce((sum, x) => sum + f(x), 0n)`, from the left as the source adds.
  unfoldable pub sum_from : ℤ → List A → ℤ
  sum_from acc [] = acc
  sum_from acc (x ∷ xs) = sum_from (acc +ℤ f x) xs

  unfoldable pub sum_ℤ : List A → ℤ
  unfolding sum_from
  sum_ℤ xs = sum_from (pos 0) xs

  sum_from_lem : (acc : ℤ) (xs : List A) → sum_from acc xs ≡ acc +ℤ sum_from (pos 0) xs
  unfolding sum_from
  sum_from_lem acc [] = omega int_laws
  sum_from_lem acc (x ∷ xs) =
      rw (sum_from_lem (acc +ℤ f x) xs) (rw (sum_from_lem (pos 0 +ℤ f x) xs) (omega int_laws))

  pub sum_ℤ-nil : sum_ℤ [] ≡ pos 0
  unfolding sum_ℤ
  sum_ℤ-nil = refl

  pub sum_ℤ-cons : (x : A) (xs : List A) → sum_ℤ (x ∷ xs) ≡ f x +ℤ sum_ℤ xs
  unfolding sum_ℤ
  sum_ℤ-cons x xs = rw (sum_from_lem (pos 0 +ℤ f x) xs) (omega int_laws)

pub sum_ℤ-append {ℓ} :
    {A : Type ℓ} (f : A → ℤ) (xs ys : List A) → sum_ℤ f (xs ++ ys) ≡ sum_ℤ f xs +ℤ sum_ℤ f ys
sum_ℤ-append f [] ys = rw (sum_ℤ-nil f) (omega int_laws)
sum_ℤ-append f (x ∷ xs) ys =
    rw (sum_ℤ-cons f x (xs ++ ys), sum_ℤ-cons f x xs, sum_ℤ-append f xs ys) (omega int_laws)

pub +ℤ_assoc : (a b c : ℤ) → a +ℤ b +ℤ c ≡ a +ℤ (b +ℤ c)
+ℤ_assoc a b c = omega int_laws
