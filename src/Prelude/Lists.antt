-- ===== src/Prelude/Lists.antt =====
-- Arrays as lists: lengths, tests, searches and predicates over the native numbers.
use Prim.Native.Nat.{ℕ, zero, suc, ◌≤◌}
use mathlib.Core.Path.{◌≡◌, refl, ap}
use mathlib.Core.Logic.{◌↔◌, inl, inr}
use mathlib.Core.Bool.{Bool, true, false, ◌&&◌, ◌||◌}
use mathlib.Core.List.{List, [], ◌∷◌, ◌++◌, map}
use mathlib.Core.Option.{Option, none, some}
use native.Mathlib.Omega.{arith}
use portfolio_rebalancer.Prelude.Tests.{if◌then◌else◌, Bool-cases}

module _ {ℓ} {A : Type ℓ} where
  abbrev pub length : List A → ℕ
  length [] = 0
  length (x ∷ xs) = suc (length xs)

  abbrev pub take : ℕ → List A → List A
  take zero xs = []
  take (suc n) [] = []
  take (suc n) (x ∷ xs) = x ∷ take n xs

  abbrev pub drop : ℕ → List A → List A
  drop zero xs = xs
  drop (suc n) [] = []
  drop (suc n) (x ∷ xs) = drop n xs

  -- `xs.some(p)`
  abbrev pub any : (A → Bool) → List A → Bool
  any p [] = false
  any p (x ∷ xs) = p x || any p xs

  -- `xs.every(p)`
  abbrev pub all : (A → Bool) → List A → Bool
  all p [] = true
  all p (x ∷ xs) = p x && all p xs

  -- `xs.find(p)`
  abbrev pub find : (A → Bool) → List A → Option A
  find p [] = none
  find p (x ∷ xs) = if p x then some x else find p xs

  abbrev pub filter : (A → Bool) → List A → List A
  filter p [] = []
  filter p (x ∷ xs) = let rest = filter p xs in if p x then x ∷ rest else rest

  pub take-append-drop : (n : ℕ) (xs : List A) → take n xs ++ drop n xs ≡ xs
  take-append-drop zero xs = refl
  take-append-drop (suc n) [] = refl
  take-append-drop (suc n) (x ∷ xs) = ap (λ r. x ∷ r) (take-append-drop n xs)

  pub length-take : (n : ℕ) (xs : List A) → n ≤ length xs → length (take n xs) ≡ n
  length-take zero xs h = refl
  length-take (suc n) [] h = omega arith
  length-take (suc n) (x ∷ xs) h = omega (arith, length-take n xs (omega arith))

pub length-map {ℓ κ} :
    {A : Type ℓ} {B : Type κ} (f : A → B) (xs : List A) → length (map f xs) ≡ length xs
length-map f [] = refl
length-map f (x ∷ xs) = ap suc (length-map f xs)

module _ {ℓ κ} {A : Type ℓ} (P : A → Type κ) where
  -- Every element has the property.
  abbrev pub All : List A → Type κ
  All [] = Unit
  All (x ∷ xs) = P x × All xs

module _ {ℓ} {A : Type ℓ} (p : A → Bool) where
  pub all_iff : (xs : List A) → (all p xs ≡ true) ↔ All (λ x. p x ≡ true) xs
  all_iff [] = (λ h. tt, λ h. refl)
  all_iff (x ∷ xs) =
      let ih = all_iff xs in (λ h. ground (arith, ih.0), λ h. ground (arith, h.0, ih.1 h.1))

  pub any_iff : (xs : List A) → (any p xs ≡ false) ↔ All (λ x. p x ≡ false) xs
  any_iff [] = (λ h. tt, λ h. refl)
  any_iff (x ∷ xs) =
      let ih = any_iff xs in (λ h. ground (arith, ih.0), λ h. ground (arith, h.0, ih.1 h.1))

  pub find_iff : (xs : List A) → (find p xs ≡ none) ↔ All (λ x. p x ≡ false) xs
  find_iff [] = (λ h. tt, λ h. refl)
  find_iff (x ∷ xs) =
      let ih = find_iff xs in (λ h. ground (arith, ih.0), λ h. ground (arith, h.0, ih.1 h.1))

pub All-map {ℓ κ μ} :
    {A : Type ℓ} {P : A → Type κ} {Q : A → Type μ} (f : (x : A) → P x → Q x) (xs : List A)
    → All P xs
    → All Q xs
All-map f [] h = tt
All-map f (x ∷ xs) h = (f x h.0, All-map f xs h.1)

pub All-zip {ℓ κ μ ν} :
    {A : Type ℓ} {P : A → Type κ} {Q : A → Type μ} {R : A → Type ν} (f : (x : A) → P x → Q x → R x)
    (xs : List A)
    → All P xs
    → All Q xs
    → All R xs
All-zip f [] h k = tt
All-zip f (x ∷ xs) h k = (f x h.0 k.0, All-zip f xs h.1 k.1)

pub All-filter {ℓ κ} :
    {A : Type ℓ} (P : A → Type κ) (p : A → Bool) (xs : List A)
    → All P xs
    → All (λ x. P x × (p x ≡ true)) (filter p xs)
All-filter P p [] h = tt
All-filter P p (x ∷ xs) h = elim (Bool-cases (p x)) [
  | inl kept ↦ rw kept ((h.0, kept), All-filter P p xs h.1)
  | inr left_out ↦ rw left_out (All-filter P p xs h.1)
]

pub All-append {ℓ κ} :
    {A : Type ℓ} (P : A → Type κ) (xs ys : List A) → All P xs → All P ys → All P (xs ++ ys)
All-append P [] ys h k = k
All-append P (x ∷ xs) ys h k = (h.0, All-append P xs ys h.1 k)

pub All-of_map {ℓ κ μ} :
    {A : Type ℓ} {B : Type κ} (P : B → Type μ) (f : A → B) (xs : List A)
    → All (λ x. P (f x)) xs
    → All P (map f xs)
All-of_map P f [] h = tt
All-of_map P f (x ∷ xs) h = (h.0, All-of_map P f xs h.1)

pub map-map_lem {ℓ κ μ} :
    {A : Type ℓ} {B : Type κ} {C : Type μ} (g : B → C) (f : A → B) (xs : List A)
    → map g (map f xs) ≡ map (λ x. g (f x)) xs
map-map_lem g f [] = refl
map-map_lem g f (x ∷ xs) = ap (λ r. g (f x) ∷ r) (map-map_lem g f xs)

pub All-to_map {ℓ κ μ} :
    {A : Type ℓ} {B : Type κ} (P : B → Type μ) (f : A → B) (xs : List A)
    → All P (map f xs)
    → All (λ x. P (f x)) xs
All-to_map P f [] h = tt
All-to_map P f (x ∷ xs) h = (h.0, All-to_map P f xs h.1)

pub All-All {ℓ κ} : {A : Type ℓ} {P : A → Type κ} (f : (x : A) → P x) (xs : List A) → All P xs
All-All f [] = tt
All-All f (x ∷ xs) = (f x, All-All f xs)

-- The empty type at every level.
pub data Never {ℓ} : Type ℓ where

module _ {ℓ κ μ} {A : Type ℓ} {B : Type κ} (R : A → B → Type μ) where
  -- The arrays have one length, and the relation holds at each index.
  abbrev pub All2 : List A → List B → Type μ
  All2 [] [] = Unit
  All2 [] (y ∷ ys) = Never
  All2 (x ∷ xs) [] = Never
  All2 (x ∷ xs) (y ∷ ys) = R x y × All2 xs ys

pub All2-map {ℓ κ μ ν} :
    {A : Type ℓ} {B : Type κ} {R : A → B → Type μ} {S : A → B → Type ν}
    (f : (x : A) (y : B) → R x y → S x y) (xs : List A) (ys : List B)
    → All2 R xs ys
    → All2 S xs ys
All2-map f [] [] h = tt
All2-map f [] (y ∷ ys) h = elim h [ ]
All2-map f (x ∷ xs) [] h = elim h [ ]
All2-map f (x ∷ xs) (y ∷ ys) h = (f x y h.0, All2-map f xs ys h.1)

-- What relates each element to its partner gives it a partner.
pub All2-left {ℓ κ μ ν} :
    {A : Type ℓ} {B : Type κ} {R : A → B → Type μ} {P : A → Type ν}
    (f : (x : A) (y : B) → R x y → P x) (xs : List A) (ys : List B)
    → All2 R xs ys
    → All P xs
All2-left f [] [] h = tt
All2-left f [] (y ∷ ys) h = elim h [ ]
All2-left f (x ∷ xs) [] h = elim h [ ]
All2-left f (x ∷ xs) (y ∷ ys) h = (f x y h.0, All2-left f xs ys h.1)

pub All2-right {ℓ κ μ ν} :
    {A : Type ℓ} {B : Type κ} {R : A → B → Type μ} {P : B → Type ν}
    (f : (x : A) (y : B) → R x y → P y) (xs : List A) (ys : List B)
    → All2 R xs ys
    → All P ys
All2-right f [] [] h = tt
All2-right f [] (y ∷ ys) h = elim h [ ]
All2-right f (x ∷ xs) [] h = elim h [ ]
All2-right f (x ∷ xs) (y ∷ ys) h = (f x y h.0, All2-right f xs ys h.1)
