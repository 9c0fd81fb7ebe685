-- ===== src/Money/PlatformFee/Bounds.antt =====
-- The bounds of the application fee (reimbursements/money.py).
use native.Mathlib.Nat.{one-le-pow}
use papertrail.Base.{
  ℕ, zero, suc, ◌+◌, ◌*◌, ◌^◌, ◌≤◌, ◌<◌, ◌≡◌, refl, ap, ◌∙◌, ◌+ℤ◌, ◌⊎◌, inl, inr, arith, ℤ, pos,
  ◌≤ℤ◌, max_ℤ, +ℤ_parts, Result, ok, raised, Text,
}
use papertrail.Base.Raising.{◌>>=◌}
use papertrail.Money.Decimal.{
  fraction, add, multiply, of_ℕ, digits, fix, round_off, half_even, precision, ceiling,
  quantize_ceiling, to_int,
}
use papertrail.Money.Decimal.Rounding.{ceiling_bounds, fix_exact}
use papertrail.Money.ExchangeRates.{Rates}
use papertrail.Money.PlatformFee.{
  FeeSettings, default_settings, converted_units, percentage, cap_fee, compute,
}

cap_fee-le : (total : ℕ) (fee : ℤ) → cap_fee total fee ≤ℤ pos total
unfolding cap_fee
cap_fee-le total fee = ground arith

-- What `compute` does with the two converted components, `p` and `q` being the two percentages.
abbrev settle : ℕ → ℤ → ℤ → Result ℤ → Result ℤ → Result ℤ
settle total p q fixed net_min =
    fixed >>= λ f. net_min >>= λ m. ok (cap_fee total (p +ℤ f +ℤ max_ℤ q m))

settle-le :
    (total : ℕ) (p q : ℤ) (f m : Result ℤ) {fee : ℤ}
    → settle total p q f m ≡ ok fee
    → fee ≤ℤ pos total
settle-le total p q (ok f) (ok m) h = ground (arith, cap_fee-le total (p +ℤ f +ℤ max_ℤ q m))
settle-le total p q (ok f) (raised e) h = cc
settle-le total p q (raised e) m h = cc

-- If the fee of a payment that is not negative can be computed, it never exceeds the payment,
-- whatever the settings and the rates.
pub compute-le_total :
    (settings : FeeSettings) (total : ℕ) (currency : Text) (rates : Rates) {fee : ℤ}
    → compute settings (pos total) currency rates ≡ ok fee
    → fee ≤ℤ pos total
unfolding compute
compute-le_total settings zero currency rates h = ground arith
compute-le_total settings (suc n) currency rates h =
    settle-le (suc n) _ (percentage (suc n) settings.platform_net_percent) _ _ h

-- A fee below the total covers the processing costs and either margin.
abbrev Covers : ℕ → ℤ → ℤ → Result ℤ → Result ℤ → ℤ → Type 0
Covers total p q fixed net_min fee =
    (fee ≡ pos total)
    ⊎ ((f m : ℤ) × (fixed ≡ ok f) × (net_min ≡ ok m) × (p +ℤ f +ℤ q ≤ℤ fee) × (p +ℤ f +ℤ m ≤ℤ fee))

cap_fee_cases : (total : ℕ) (fee : ℤ) → (cap_fee total fee ≡ pos total) ⊎ (cap_fee total fee ≡ fee)
unfolding cap_fee
cap_fee_cases total fee = ground arith

max_mono : (a q m : ℤ) → (a +ℤ q ≤ℤ a +ℤ max_ℤ q m) × (a +ℤ m ≤ℤ a +ℤ max_ℤ q m)
max_mono a q m = ground (arith, +ℤ_parts a q, +ℤ_parts a m)

settle-Covers :
    (total : ℕ) (p q : ℤ) (f m : Result ℤ) {fee : ℤ}
    → settle total p q f m ≡ ok fee
    → Covers total p q f m fee
settle-Covers total p q (ok f) (ok m) h = elim (cap_fee_cases total (p +ℤ f +ℤ max_ℤ q m)) [
  | inl e ↦ inl (ground arith)
  | inr e ↦ inr (
    f,
    m,
    refl,
    refl,
    ground (arith, max_mono (p +ℤ f) q m),
    ground (arith, max_mono (p +ℤ f) q m),
  )
]
settle-Covers total p q (ok f) (raised e) h = cc
settle-Covers total p q (raised e) m h = cc

multiply-fraction :
    (n c s : ℕ) → digits (n * c) ≤ precision → multiply (of_ℕ n) (fraction c s) ≡ fraction (n * c) s
unfolding multiply
multiply-fraction n c s h =
    fix_exact (fraction (n * c) (0 + s)) h ∙ ap (fraction (n * c)) (omega arith)

quantize_ceiling-fraction :
    (n s : ℕ) → quantize_ceiling 0 (fraction n (suc s)) ≡ fraction (ceiling n (10 ^ suc s)) 0
unfolding quantize_ceiling
quantize_ceiling-fraction n s = ground arith

to_int-fraction : (n : ℕ) → to_int (fraction n 0) ≡ pos n
unfolding to_int
to_int-fraction n = ground arith

-- A percentage `c / 10 ^ s` of a total is rounded up to the next unit.
pub percentage_bounds :
    (total c s : ℕ)
    → digits (total * c) ≤ precision
    → (p : ℕ) × (percentage total (fraction c (suc s)) ≡ pos p)
      × (total * c ≤ p * 10 ^ suc s)
      × (p * 10 ^ suc s < total * c + 10 ^ suc s)
unfolding percentage
percentage_bounds total c s h =
    let (low, high) =
      ceiling_bounds (total * c) (10 ^ suc s) (one-le-pow (suc s) 10 (omega arith)) in
    (
      ceiling (total * c) (10 ^ suc s),
      rw (multiply-fraction total c (suc s) h, quantize_ceiling-fraction (total * c) s)
          (to_int-fraction _),
      low,
      high,
    )

default_percent : add (fraction 29 3) (fraction 3 3) ≡ fraction 32 3
unfolding add fix digits round_off half_even
default_percent = refl

-- At the default prices, and for a total whose products with the percentages have at most 28
-- digits, a fee below the total leaves, after 3.2% of the total and the fixed charge, at least 1%
-- of the total and at least the minimum.
pub compute_margin :
    (total : ℕ) (currency : Text) (rates : Rates) {fee : ℤ}
    → digits (total * 32) ≤ precision
    → digits (total * 1) ≤ precision
    → compute default_settings (pos total) currency rates ≡ ok fee
    → (fee ≡ pos total)
      ⊎ ((processing net : ℕ) × (fixed net_min : ℤ) × (total * 32 ≤ processing * 1000)
          × (total * 1 ≤ net * 100)
          × (converted_units (fraction 30 2) currency rates ≡ ok fixed)
          × (converted_units (fraction 25 2) currency rates ≡ ok net_min)
          × (pos processing +ℤ fixed +ℤ pos net ≤ℤ fee)
          × (pos processing +ℤ fixed +ℤ net_min ≤ℤ fee))
unfolding compute
compute_margin zero currency rates h k e = inl (ground arith)
compute_margin (suc n) currency rates h k e =
    let (p, ep, lp, _) = percentage_bounds (suc n) 32 2 h in
    let (q, eq, lq, _) = percentage_bounds (suc n) 1 1 k in
    elim (settle-Covers (suc n) (percentage (suc n) (add (fraction 29 3) (fraction 3 3)))
      (percentage (suc n) (fraction 1 2)) (converted_units (fraction 30 2) currency rates)
      (converted_units (fraction 25 2) currency rates) e) [
        | inl c ↦ inl c
        | inr (f, m, ef, em, a, b) ↦ inr (
          p,
          q,
          f,
          m,
          lp,
          lq,
          ef,
          em,
          rw (default_percent, ep, eq) at a,
          rw (default_percent, ep) at b,
        )
      ]
