-- ===== src/Money/Tests.antt =====
-- Conversions and fees at concrete rates.
use papertrail.Base.{
  ◌≡◌, ◌⊎◌, refl, arith, ℕ, ◌*◌, ◌≤◌, none, some, [], ◌∷◌, text, text_eq, upper, lower, ok, pos, ℤ,
  ◌+ℤ◌, ◌≤ℤ◌,
}
use papertrail.Money.Decimal.{
  fraction, is_zero, add, multiply, divide, fix, digits, round_off, half_even, half_up, ceiling,
  quantize_half_up, quantize_ceiling, to_int,
}
use papertrail.Money.Currencies.{get_currency_decimals, is_in, to_stripe_amount}
use papertrail.Money.ExchangeRates.{
  Rates, RateCache, find_rate, get_rates, convert_strict, apply_rates,
}
use papertrail.Money.ExchangeRates.Laws.{get_rates_outage}
use papertrail.Money.PlatformFee.{default_settings, converted_units, percentage, cap_fee, compute}
use papertrail.Money.PlatformFee.Bounds.{compute-le_total, compute_margin}

abbrev listed : Rates
listed = (text "USD", fraction 1 0) ∷ (text "EUR", fraction 5 1) ∷ []

abbrev stale_only : RateCache
stale_only = record { fresh = none; stale = some listed }

get_rates_outage_example :
    let (served, c') = get_rates [] stale_only in
    (served ≡ listed) × (get_rates listed c' ≡ ([], c')) × (c'.stale ≡ some listed)
get_rates_outage_example =
    get_rates_outage (text "USD", fraction 1 0) ((text "EUR", fraction 5 1) ∷ []) listed stale_only
      refl refl

compute-le_total_example : pos 87 ≤ℤ pos 1000
unfolding compute converted_units convert_strict upper text_eq is_zero find_rate apply_rates divide
    to_stripe_amount get_currency_decimals is_in lower percentage cap_fee multiply add fix digits
    round_off half_even half_up quantize_ceiling quantize_half_up ceiling to_int ◌+ℤ◌
compute-le_total_example = compute-le_total default_settings 1000 (text "usd") listed refl

compute_margin_example :
    (pos 87 ≡ pos 1000)
    ⊎ ((processing net : ℕ) × (fixed net_min : ℤ) × (1000 * 32 ≤ processing * 1000)
        × (1000 * 1 ≤ net * 100)
        × (converted_units (fraction 30 2) (text "usd") listed ≡ ok fixed)
        × (converted_units (fraction 25 2) (text "usd") listed ≡ ok net_min)
        × (pos processing +ℤ fixed +ℤ pos net ≤ℤ pos 87)
        × (pos processing +ℤ fixed +ℤ net_min ≤ℤ pos 87))
unfolding compute converted_units convert_strict upper text_eq is_zero find_rate apply_rates divide
    to_stripe_amount get_currency_decimals is_in lower percentage cap_fee multiply add fix digits
    round_off half_even half_up quantize_ceiling quantize_half_up ceiling to_int ◌+ℤ◌
compute_margin_example = compute_margin 1000 (text "usd") listed (omega arith) (omega arith) refl
