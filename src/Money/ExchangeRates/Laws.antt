-- ===== src/Money/ExchangeRates/Laws.antt =====
-- What conversion and the cache of rates promise (core/exchange_rates.py).
use papertrail.Base.{
  ◌≡◌, refl, ◌⊎◌, inl, inr, Option, none, some, [], ◌∷◌, ◌||◌, false, arith, Text, text_eq, upper,
  Result, ok, raised, rate_unavailable, Bool-cases,
}
use papertrail.Money.Decimal.{Decimal, is_zero}
use papertrail.Money.ExchangeRates.{
  Rates, RateCache, find_rate, get_rates, convert, convert_strict, convert_strict_by, apply_rates,
}

-- Wherever strict conversion returns an amount, lenient conversion returns the same amount.
pub convert_strict-convert :
    (amount : Decimal) (from_curr to_curr : Text) (rates : Rates) {x : Decimal}
    → convert_strict amount from_curr to_curr rates ≡ ok x
    → convert amount from_curr to_curr rates ≡ x
unfolding convert convert_strict
convert_strict-convert amount f t rates h = ground arith

-- The two ways in which strict conversion by two looked-up rates ends.
abbrev pub AppliesOrRaises :
    Decimal → Text → Option Decimal → Option Decimal → Result Decimal → Type 0
AppliesOrRaises amount to_curr from_rate to_rate r =
    ((f t : Decimal) × (from_rate ≡ some f)
      × (to_rate ≡ some t)
      × (is_zero f ≡ false)
      × (is_zero t ≡ false)
      × (r ≡ ok (apply_rates amount f t to_curr)))
    ⊎ (r ≡ raised rate_unavailable)

convert_strict_by_cases :
    (amount : Decimal) (t : Text) (o p : Option Decimal)
    → AppliesOrRaises amount t o p (convert_strict_by amount t o p)
unfolding convert_strict_by
convert_strict_by_cases amount t none p = inr refl
convert_strict_by_cases amount t (some f) none = inr refl
convert_strict_by_cases amount t (some f) (some r) = elim (Bool-cases (is_zero f || is_zero r)) [
  | inl e ↦ inr (rw e)
  | inr e ↦ inl (f, r, refl, refl, ground arith, ground arith, rw e)
]

-- A non-zero amount in another currency is never passed through: strict conversion either applies
-- two listed rates that are not zero, or raises.
pub convert_strict_cases :
    (amount : Decimal) (from_curr to_curr : Text) (rates : Rates)
    → is_zero amount ≡ false
    → text_eq (upper from_curr) (upper to_curr) ≡ false
    → AppliesOrRaises amount
        (upper to_curr)
        (find_rate (upper from_curr) rates)
        (find_rate (upper to_curr) rates)
        (convert_strict amount from_curr to_curr rates)
unfolding convert_strict
convert_strict_cases amount f t rates nz ne =
    rw (ne, nz)
      (convert_strict_by_cases amount (upper t) (find_rate (upper f) rates)
        (find_rate (upper t) rates))

-- Rates that were fetched are served from then on, whatever later fetches return.
pub get_rates-get_rates :
    (r : Text × Decimal) (rs later : Rates) (c : RateCache)
    → c.fresh ≡ none
    → let (served, c') = get_rates (r ∷ rs) c in
      (served ≡ r ∷ rs) × (get_rates later c' ≡ (r ∷ rs, c'))
unfolding get_rates
get_rates-get_rates r rs later c h = ground arith

-- If no fresh rates are cached and the service fails, the stale rates are served once: while the
-- empty entry that this stores is alive, every later call is served no rates, whatever is
-- fetched, and the stale ones stay in the cache.
pub get_rates_outage :
    (r : Text × Decimal) (rs later : Rates) (c : RateCache)
    → c.fresh ≡ none
    → c.stale ≡ some (r ∷ rs)
    → let (served, c') = get_rates [] c in
      (served ≡ r ∷ rs) × (get_rates later c' ≡ ([], c')) × (c'.stale ≡ some (r ∷ rs))
unfolding get_rates
get_rates_outage r rs later c h k = ground arith
