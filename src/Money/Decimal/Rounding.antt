-- ===== src/Money/Decimal/Rounding.antt =====
-- What the rounding of decimals promises (the arguments of `quantize` in core/currencies.py and
-- reimbursements/money.py).
use papertrail.Base.{ℕ, ◌+◌, ◌-◌, ◌*◌, ◌≤◌, ◌<◌, ◌≡◌, arith}
use native.Mathlib.Nat.{div-add-mod', mod-lt}
use papertrail.Money.Decimal.{
  half_up, half_even, ceiling, round_off, fix, digits, precision, Decimal,
}

pub half_up_one : (n : ℕ) → half_up n 1 ≡ n
unfolding half_up
half_up_one n = omega arith

pub half_even_one : (n : ℕ) → half_even n 1 ≡ n
unfolding half_even
half_even_one n = ground arith

-- A half-up quotient is within half a unit of the exact one.
pub half_up_near :
    (n d : ℕ) → 0 < d → (2 * (half_up n d * d) ≤ 2 * n + d) × (2 * n < 2 * (half_up n d * d) + d)
unfolding half_up
half_up_near n d h =
    grind (arith, div-add-mod' (2 * n + d) (2 * d), mod-lt (2 * n + d) {m = 2 * d} (omega arith))

pub ceiling_bounds : (n d : ℕ) → 0 < d → (n ≤ ceiling n d * d) × (ceiling n d * d < n + d)
unfolding ceiling
ceiling_bounds n d h = grind (arith, div-add-mod' (n + (d - 1)) d, mod-lt (n + (d - 1)) h)

round_off_zero : (a : Decimal) → round_off 0 a ≡ a
unfolding round_off
round_off_zero a = ground arith

-- A coefficient within the precision is not rounded.
pub fix_exact : (a : Decimal) → digits a.coefficient ≤ precision → fix a ≡ a
unfolding fix
fix_exact a h =
    let e : digits a.coefficient - precision ≡ 0 = omega arith in rw e (round_off_zero a)
