-- ===== src/Application/ShadowPlan/Funding.antt =====
-- The purchases of a plan are funded from the spendable cash, through the asset classes.
use portfolio_rebalancer.Prelude.{
  ℤ, pos, ◌≤ℤ◌, ◌+ℤ◌, int_laws, sum_ℤ, sum_ℤ-nil, sum_ℤ-cons, Text, text_eq, text_eq_iff,
  text_eq_symm, contains, Distinct, TextMap, map_get, map_set, map_from, Bool-cases, true, false,
  List, [], ◌∷◌, All, arith, ◌≡◌, refl, sym, ap, subst, ◌∙◌, inl, inr,
}
use portfolio_rebalancer.Application.ShadowPlan.Orders.{or_zero_minor}

-- The values of a map.
abbrev pub values : TextMap ℤ → ℤ
values m = sum_ℤ (λ (e : Text × ℤ). e.1) m

abbrev pub IsNonNegative : TextMap ℤ → Type 0
IsNonNegative m = All (λ e. pos 0 ≤ℤ e.1) m

-- What the map holds for these keys, together.
abbrev pub amount : TextMap ℤ → Text → ℤ
amount m k = or_zero_minor (map_get k m)

abbrev pub held : TextMap ℤ → List Text → ℤ
held m keys = sum_ℤ (amount m) keys

set_values :
    (k : Text) (v : ℤ) (m : TextMap ℤ)
    → pos 0 ≤ℤ v
    → IsNonNegative m
    → (values (map_set k v m) ≤ℤ v +ℤ values m) × IsNonNegative (map_set k v m)
unfolding map_set
set_values k v [] p h = (rw (sum_ℤ-cons (λ (e : Text × ℤ). e.1) (k, v) []) (omega arith), (p, tt))
set_values k v ((j, w) ∷ m) p h = elim (Bool-cases (text_eq j k)) [
  | inl same ↦
      rw
        (
          same,
          sum_ℤ-cons (λ (e : Text × ℤ). e.1) (j, v) m,
          sum_ℤ-cons (λ (e : Text × ℤ). e.1) (j, w) m,
        )
        ((omega (int_laws, h.0)), (p, h.1))
  | inr other ↦
      let (less, good) = set_values k v m p h.1 in
      rw
        (
          other,
          sum_ℤ-cons (λ (e : Text × ℤ). e.1) (j, w) (map_set k v m),
          sum_ℤ-cons (λ (e : Text × ℤ). e.1) (j, w) m,
        )
        (omega (int_laws, less), (h.0, good))
]

pub from_values :
    (m es : TextMap ℤ)
    → IsNonNegative m
    → IsNonNegative es
    → (values (map_from m es) ≤ℤ values m +ℤ values es) × IsNonNegative (map_from m es)
unfolding map_from
from_values m [] h k = (rw (sum_ℤ-nil (λ (e : Text × ℤ). e.1)) (omega int_laws), h)
from_values m ((k, v) ∷ es) h all =
    let (less, good) = set_values k v m all.0 h in
    let (more, fine) = from_values (map_set k v m) es good all.1 in
    (rw (sum_ℤ-cons (λ (e : Text × ℤ). e.1) (k, v) es) (omega (int_laws, less, more)), fine)

amount_found :
    (j : Text) (v : ℤ) (m : TextMap ℤ) (k : Text) → text_eq j k ≡ true → amount ((j, v) ∷ m) k ≡ v
unfolding map_get
amount_found j v m k e = rw e refl

amount_other :
    (j : Text) (v : ℤ) (m : TextMap ℤ) (k : Text)
    → text_eq j k ≡ false
    → amount ((j, v) ∷ m) k ≡ amount m k
unfolding map_get
amount_other j v m k e = rw e refl

pub amount_positive : (m : TextMap ℤ) (k : Text) → IsNonNegative m → pos 0 ≤ℤ amount m k
unfolding map_get
amount_positive [] k h = omega arith
amount_positive ((j, v) ∷ m) k h = elim (Bool-cases (text_eq j k)) [
  | inl same ↦ rw same h.0
  | inr other ↦ rw other (amount_positive m k h.1)
]

-- An entry whose key is none of these adds nothing.
held_other :
    (j : Text) (v : ℤ) (m : TextMap ℤ) (keys : List Text)
    → contains keys j ≡ false
    → held ((j, v) ∷ m) keys ≡ held m keys
unfolding contains
held_other j v m [] h = sum_ℤ-nil (amount ((j, v) ∷ m)) ∙ sym (sum_ℤ-nil (amount m))
held_other j v m (k ∷ keys) h =
    let apart : text_eq k j ≡ false = ground arith in
    let behind : contains keys j ≡ false = ground arith in
    let here = amount_other j v m k (text_eq_symm j k ∙ apart) in
    sum_ℤ-cons (amount ((j, v) ∷ m)) k keys
    ∙ ap (λ x. x +ℤ held ((j, v) ∷ m) keys) here
    ∙ ap (λ y. amount m k +ℤ y) (held_other j v m keys behind)
    ∙ sym (sum_ℤ-cons (amount m) k keys)

-- One more entry of the map adds its value at most once to different keys.
held_cons :
    (j : Text) (v : ℤ) (m : TextMap ℤ) (keys : List Text)
    → pos 0 ≤ℤ v
    → IsNonNegative m
    → Distinct keys
    → held ((j, v) ∷ m) keys ≤ℤ v +ℤ held m keys
held_cons j v m [] p h d =
    rw (sum_ℤ-nil (amount ((j, v) ∷ m)), sum_ℤ-nil (amount m)) (omega (int_laws, p))
held_cons j v m (k ∷ keys) p h d =
    let this = sum_ℤ-cons (amount ((j, v) ∷ m)) k keys in
    let that = sum_ℤ-cons (amount m) k keys in
    let positive = amount_positive m k h in
    elim (Bool-cases (text_eq j k)) [
      | inl same ↦
          let j_is_k = (text_eq_iff j k).0 same in
          let behind =
            held_other j v m keys (subst (λ x. contains keys x ≡ false) (sym j_is_k) d.0) in
          rw (this, that, amount_found j v m k same, behind) (omega (int_laws, positive))
      | inr other ↦
          rw (this, that, amount_other j v m k other)
            (omega (int_laws, held_cons j v m keys p h d.1))
    ]

held_nil : (keys : List Text) → held [] keys ≡ pos 0
unfolding map_get
held_nil [] = sum_ℤ-nil (amount [])
held_nil (k ∷ keys) =
    sum_ℤ-cons (amount []) k keys ∙ ap (λ y. pos 0 +ℤ y) (held_nil keys) ∙ omega int_laws

pub held-values :
    (m : TextMap ℤ) (keys : List Text) → IsNonNegative m → Distinct keys → held m keys ≤ℤ values m
held-values [] keys h d = rw (held_nil keys, sum_ℤ-nil (λ (e : Text × ℤ). e.1)) (omega arith)
held-values ((j, v) ∷ m) keys h d =
    rw (sum_ℤ-cons (λ (e : Text × ℤ). e.1) (j, v) m)
      (omega (int_laws, held_cons j v m keys h.0 h.1 d, held-values m keys h.1 d))
