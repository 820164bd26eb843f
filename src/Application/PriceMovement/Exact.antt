-- ===== src/Application/PriceMovement/Exact.antt =====
-- The comparison of two decimal prices is exact.
use portfolio_rebalancer.Prelude.{
  ℕ, zero, suc, ◌+◌, ◌-◌, ◌*◌, ◌/◌, ◌^◌, ◌≤◌, ◌<◌, ltb, leb, ℤ, pos, negsuc, pos_part, ◌≤ℤ◌, ◌*ℤ◌,
  Text, Bool, Bool-cases, true, false, not, ◌&&◌, ◌||◌, Option, none, some, length, ◌++◌, or_empty,
  fraction_of, whole_of, decimal_value, is_whole, is_fraction, if◌then◌else◌, arith, ◌≡◌, ◌↔◌, refl,
  ap, subst, ◌∙◌, inl, inr,
}
use native.Mathlib.Nat.{
  pow-zero, pow-suc, pow-le-pow_right, mul-le-mul_right, mul-div_cancel, one-le-pow,
  le_of_mul-le-mul_right,
}
use portfolio_rebalancer.Application.PriceMovement.{
  Price, parse_positive_decimal, scaled, larger, distance, compare_prices, decision,
}

-- The scale of a price is a power of ten, and its numerator is positive.
record IsPrice (p : Price) : Type 0 where
  places : ℕ
  scale : p.scale ≡ 10 ^ places
  positive : 0 < p.numerator

sub_mul : (a b k : ℕ) → b ≤ a → a * k - b * k ≡ (a - b) * k
sub_mul a b k h =
    let split : a * k ≡ (b + (a - b)) * k = ap (λ x. x * k) (omega arith) in omega arith

distance_mul : (a b k : ℕ) → distance (a * k) (b * k) ≡ distance a b * k
distance_mul a b k = elim (Bool-cases (leb b a)) [
  | inl less ↦
      let h : b ≤ a = ground arith in
      let h' : b * k ≤ a * k = mul-le-mul_right k h in
      let yes : leb (b * k) (a * k) ≡ true = ground arith in rw (less, yes) (sub_mul a b k h)
  | inr more ↦
      let h : a ≤ b = ground arith in
      elim (Bool-cases (leb (b * k) (a * k))) [
        | inl same ↦
            let h' : a * k ≤ b * k = mul-le-mul_right k h in
            let back : b * k ≤ a * k = ground arith in
            rw (more, same) (omega (arith, sub_mul b a k h))
        | inr less ↦ rw (more, less) (sub_mul b a k h)
      ]
]

power_sum : (c b : ℕ) → 10 ^ (c + b) ≡ 10 ^ c * 10 ^ b
power_sum zero b =
    rw (pow-zero 10) (ap (λ e. 10 ^ e) {x = zero + b} {y = b} (omega arith) ∙ omega arith)
power_sum (suc c) b = rw (pow-suc 10 c) (
    ap (λ e. 10 ^ e) {x = suc c + b} {y = suc (c + b)} (omega arith)
    ∙ pow-suc 10 (c + b)
    ∙ omega (arith, power_sum c b))

power_quotient : (a b : ℕ) → b ≤ a → (10 ^ a / 10 ^ b) * 10 ^ b ≡ 10 ^ a
power_quotient a b h =
    let split : 10 ^ a ≡ 10 ^ (a - b) * 10 ^ b =
      ap (λ e. 10 ^ e) {x = a} {y = a - b + b} (omega arith) ∙ power_sum (a - b) b in
    rw (split, mul-div_cancel (10 ^ (a - b)) (one-le-pow b 10 (omega arith))) refl

-- The comparison does not depend on the unit.
close_mul :
    (limit a b s : ℕ)
    → 0 < s
    → (distance a b * 10000 ≤ limit * b) ↔ (distance (a * s) (b * s) * 10000 ≤ limit * (b * s))
close_mul limit a b s p =
    let e = distance_mul a b s in
    (
      λ h. rw e (omega (arith, mul-le-mul_right s h)),
      λ h.
          let h' : distance a b * s * 10000 ≤ limit * (b * s) = rw e at h in
          le_of_mul-le-mul_right {m = distance a b * 10000} {n = limit * b} {k = s} (omega arith) p,
    )

-- The change from one price to another, as fractions, is at most so many basis points of the first one.
abbrev pub IsClose : ℤ → Price → Price → Type 0
IsClose limit previous current =
    distance (current.numerator * previous.scale) (previous.numerator * current.scale) * 10000
    ≤ pos_part limit * (previous.numerator * current.scale)

-- The comparison that the code makes.
abbrev IsScaled : ℤ → ℕ → Price → Price → Type 0
IsScaled limit scale previous current =
    distance (scaled scale current) (scaled scale previous) * 10000
    ≤ pos_part limit * scaled scale previous

scale_positive : (p : Price) → IsPrice p → 0 < p.scale
scale_positive p h = rw (h.scale) (one-le-pow h.places 10 (omega arith))

scaled_own : (p : Price) → IsPrice p → scaled p.scale p ≡ p.numerator
scaled_own p h =
    let once : p.scale / p.scale ≡ 1 =
      ap (λ s. s / p.scale) {x = p.scale} {y = 1 * p.scale} (omega arith)
      ∙ mul-div_cancel 1 (scale_positive p h) in
    rw once (omega arith)

power_order : (a b : ℕ) → 10 ^ b ≤ 10 ^ a → b ≤ a
power_order a b h = elim (Bool-cases (leb b a)) [
  | inl fits ↦ ground arith
  | inr over ↦
      let more : suc a ≤ b = ground arith in
      let grown : 10 ^ suc a ≤ 10 ^ b = pow-le-pow_right (omega arith) more in
      let one_place : 10 ^ suc a ≡ 10 ^ a * 10 = pow-suc 10 a in
      let some : 1 ≤ 10 ^ a = one-le-pow a 10 (omega arith) in absurd (omega arith)
]

scaled_other :
    (p q : Price)
    → IsPrice p
    → IsPrice q
    → q.scale ≤ p.scale
    → scaled p.scale q * q.scale ≡ q.numerator * p.scale
scaled_other p q h k le =
    let le' : 10 ^ k.places ≤ 10 ^ h.places =
      subst (λ s. s ≤ 10 ^ h.places) k.scale (subst (λ s. q.scale ≤ s) h.scale le) in
    let whole : p.scale / q.scale * q.scale ≡ p.scale =
      rw (h.scale, k.scale)
        (power_quotient h.places k.places (power_order h.places k.places le')) in
    omega (arith, ap (λ s. q.numerator * s) whole)

IsClose-larger :
    (limit : ℤ) (p q : Price)
    → IsPrice p
    → IsPrice q
    → IsScaled limit (larger p.scale q.scale) p q ↔ IsClose limit p q
IsClose-larger limit p q h k = elim (Bool-cases (ltb q.scale p.scale)) [
  | inl less ↦
      let own = scaled_own p h in
      let other = scaled_other p q h k (ground arith) in
      rw (less, own)
        (subst
          (λ x. (distance (scaled p.scale q) p.numerator * 10000 ≤ pos_part limit * p.numerator) ↔ (
            distance x (p.numerator * q.scale) * 10000 ≤ pos_part limit * (p.numerator * q.scale)))
          other
          (close_mul (pos_part limit) (scaled p.scale q) p.numerator q.scale (scale_positive q k)))
  | inr more ↦
      let own = scaled_own q k in
      let other = scaled_other q p k h (ground arith) in
      rw (more, own)
        (subst
          (λ x.
            (distance q.numerator (scaled q.scale p) * 10000 ≤ pos_part limit * scaled q.scale p)
            ↔ (distance (q.numerator * p.scale) x * 10000 ≤ pos_part limit * x))
          other
          (close_mul (pos_part limit) q.numerator (scaled q.scale p) p.scale (scale_positive p h)))
]

compare_iff :
    (limit : ℤ) (p q : Price)
    → pos 0 ≤ℤ limit
    → ((compare_prices limit p q).can_proceed ≡ true) ↔ IsScaled limit (larger p.scale q.scale) p q
unfolding compare_prices decision ◌*ℤ◌
compare_iff (pos n) p q h = ground arith
compare_iff (negsuc n) p q h = absurd (omega arith)

abbrev guarded : Bool → Bool → ℕ → ℕ → Option Price
guarded bad low n places =
    if bad then none else if low then none else some (record { numerator = n; scale = 10 ^ places })

guarded-IsPrice :
    (bad low : Bool) (n places : ℕ) (p : Price)
    → (low ≡ false → 0 < n)
    → guarded bad low n places ≡ some p
    → IsPrice p
guarded-IsPrice true low n places p k h = cc
guarded-IsPrice false true n places p k h = cc
guarded-IsPrice false false n places p k h =
    let same : n ≡ p.numerator = cc in
    record { places = places; scale = cc; positive = subst (λ m. 0 < m) same (k refl) }

parse_positive_decimal-IsPrice :
    (s : Text) (p : Price) → parse_positive_decimal s ≡ some p → IsPrice p
unfolding parse_positive_decimal
parse_positive_decimal-IsPrice s p h =
    let fraction = or_empty (fraction_of s) in
    let n = decimal_value 0 (whole_of s ++ fraction) in
    guarded-IsPrice
      (not (is_whole (whole_of s) && is_fraction (fraction_of s)) || ltb 30 (length s)) (leb n 0) n
      (length fraction) p (λ low. ground arith) h

-- The comparison of two read prices is that of the fractions that they stand for.
pub compare_prices_iff :
    (limit : ℤ) (s t : Text) (p q : Price)
    → pos 0 ≤ℤ limit
    → parse_positive_decimal s ≡ some p
    → parse_positive_decimal t ≡ some q
    → ((compare_prices limit p q).can_proceed ≡ true) ↔ IsClose limit p q
compare_prices_iff limit s t p q h e e' =
    let (down, up) = compare_iff limit p q h in
    let (exact, back) =
      IsClose-larger limit p q (parse_positive_decimal-IsPrice s p e)
        (parse_positive_decimal-IsPrice t q e') in
    (λ c. exact (down c), λ c. up (back c))
