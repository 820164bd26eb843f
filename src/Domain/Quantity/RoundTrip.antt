-- ===== src/Domain/Quantity/RoundTrip.antt =====
-- A printed quantity reads back.
use portfolio_rebalancer.Prelude.{ltb_ℤ, false, ℕ, pos, ◌≤◌, ◌^◌, ◌-◌, ok, ◌>>=◌, arith, ◌≡◌, refl}
use portfolio_rebalancer.Domain.Decimal.{is_bad_digits}
use portfolio_rebalancer.Domain.Decimal.RoundTrip.{readable}
use portfolio_rebalancer.Domain.Quantity.{quantity, validate_fraction_digits, format_quantity}

-- A printed quantity of no negative atoms, at an admissible number of fraction digits, reads back as the same quantity.
pub format_quantity-quantity :
    (atoms count : ℕ)
    → count ≤ 2 ^ 53 - 1
    → (format_quantity (record { atoms = pos atoms; fraction_digits = pos count })
        >>= (λ s. quantity s (pos count)))
      ≡ ok (record { atoms = pos atoms; fraction_digits = pos count })
unfolding format_quantity quantity validate_fraction_digits
format_quantity-quantity atoms n h =
    let r = readable (pos atoms) n h in
    let good : is_bad_digits (pos n) ≡ false = ground arith in
    let positive : ltb_ℤ (pos atoms) (pos 0) ≡ false = ground arith in
    rw (good, positive, r.printed_as, r.admitted, r.read, positive) refl
