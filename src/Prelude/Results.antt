-- ===== src/Prelude/Results.antt =====
-- A call that returns or throws.
use mathlib.Core.Path.{◌≡◌, refl, sym, ap, ap₂, ◌∙◌}
use mathlib.Core.Bool.{Bool, true, false}
use mathlib.Core.List.{List, [], ◌∷◌, map}
use portfolio_rebalancer.Prelude.Lists.{All, All2}

pub data Result (E A : Type 0) : Type 0 where
  ok : A → Result E A
  err : E → Result E A

-- The next call runs if this one returns.
abbrev pub ◌>>=◌ : {E A B : Type 0} → Result E A → (A → Result E B) → Result E B
err thrown >>= next = err thrown
ok value >>= next = next value

infixl 5 ◌>>=◌ ◌>>◌
abbrev pub ◌>>◌ : {E B : Type 0} → Result E (Unit {0}) → Result E B → Result E B
first >> second = first >>= λ done. second

-- `if (test) throw e;`
abbrev pub throw_if : {E : Type 0} → Bool → E → Result E (Unit {0})
throw_if true e = err e
throw_if false e = ok tt

pub throw_if-ok : {E : Type 0} (b : Bool) (e : E) → throw_if b e ≡ ok tt → b ≡ false
throw_if-ok true e h = cc
throw_if-ok false e h = refl

-- If both calls returned, the first has a value from which the second went on.
pub >>=-eq-ok :
    {E A B : Type 0} (call : Result E A) (next : A → Result E B) {result : B}
    → (call >>= next) ≡ ok result
    → (value : A) × (call ≡ ok value) × (next value ≡ ok result)
>>=-eq-ok (err thrown) next returned = cc
>>=-eq-ok (ok value) next returned = (value, refl, returned)

-- If a guard and what follows returned, the test failed.
pub >>-eq-ok :
    {E B : Type 0} (b : Bool) (e : E) {next : Result E B} {result : B}
    → (throw_if b e >> next) ≡ ok result
    → (b ≡ false) × (next ≡ ok result)
>>-eq-ok true e h = cc
>>-eq-ok false e h = (refl, h)

-- `xs.map(f)` where `f` may throw.
unfoldable pub map_ok : {E A B : Type 0} → (A → Result E B) → List A → Result E (List B)
map_ok f [] = ok []
map_ok f (x ∷ xs) = f x >>= λ y. map_ok f xs >>= λ ys. ok (y ∷ ys)

-- `xs.forEach(f)` where `f` may throw.
unfoldable pub for_each : {E A : Type 0} → (A → Result E (Unit {0})) → List A → Result E (Unit {0})
for_each f [] = ok tt
for_each f (x ∷ xs) = f x >> for_each f xs

pub map_ok-All :
    {E A B : Type 0} (f : A → Result E B) (g : A → B) (xs : List A)
    → All (λ x. f x ≡ ok (g x)) xs
    → map_ok f xs ≡ ok (map g xs)
unfolding map_ok
map_ok-All f g [] h = refl
map_ok-All f g (x ∷ xs) h = rw (h.0, map_ok-All f g xs h.1) refl

pub for_each-All :
    {E A : Type 0} (f : A → Result E (Unit {0})) (xs : List A)
    → All (λ x. f x ≡ ok tt) xs
    → for_each f xs ≡ ok tt
unfolding for_each
for_each-All f [] h = refl
for_each-All f (x ∷ xs) h = rw (h.0, for_each-All f xs h.1) refl

pub All-for_each :
    {E A : Type 0} (f : A → Result E (Unit {0})) (xs : List A)
    → for_each f xs ≡ ok tt
    → All (λ x. f x ≡ ok tt) xs
unfolding for_each
All-for_each f [] h = tt
All-for_each f (x ∷ xs) h =
    let (u, first, rest) = >>=-eq-ok (f x) (λ _. for_each f xs) h in (first, All-for_each f xs rest)

pub ok-injective : {E A : Type 0} {a b : A} → ◌≡◌ {A = Result E A} (ok a) (ok b) → a ≡ b
ok-injective h = cc

pub map_ok-All2 :
    {E A B : Type 0} (f : A → Result E B) (R : A → B → Type 0) (xs : List A)
    → All (λ x. (b : B) × (f x ≡ ok b) × R x b) xs
    → (bs : List B) × (map_ok f xs ≡ ok bs) × All2 R xs bs
unfolding map_ok
map_ok-All2 f R [] h = ([], refl, tt)
map_ok-All2 f R (x ∷ xs) h =
    let (bs, e, rs) = map_ok-All2 f R xs h.1 in (h.0.0 ∷ bs, rw (h.0.1, e) refl, (h.0.2, rs))

pub map_ok-eq :
    {E A B : Type 0} (f : A → Result E B) (g : A → B)
    (only : (x : A) (y : B) → f x ≡ ok y → y ≡ g x) (xs : List A) {ys : List B}
    → map_ok f xs ≡ ok ys
    → (ys ≡ map g xs) × All (λ x. f x ≡ ok (g x)) xs
unfolding map_ok
map_ok-eq f g only [] h = (sym (ok-injective h), tt)
map_ok-eq f g only (x ∷ xs) {ys} h =
    let (y, first, rest) = >>=-eq-ok (f x) _ h in
    let (zs, second, last) = >>=-eq-ok (map_ok f xs) _ rest in
    let (e, all) = map_ok-eq f g only xs second in
    let here : y ≡ g x = only x y first in
    (sym (ok-injective last) ∙ ap₂ (λ a b. a ∷ b) here e, (first ∙ ap (λ a. ok a) here, all))

pub map_ok-map :
    {E A B C : Type 0} (f : B → Result E C) (g : A → B) (xs : List A)
    → map_ok f (map g xs) ≡ map_ok (λ x. f (g x)) xs
unfolding map_ok
map_ok-map f g [] = refl
map_ok-map f g (x ∷ xs) = rw (map_ok-map f g xs) refl

-- The call returns.
abbrev pub succeeds : {E A : Type 0} → Result E A → Bool
succeeds (ok a) = true
succeeds (err e) = false
