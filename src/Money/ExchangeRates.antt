-- ===== src/Money/ExchangeRates.antt =====
-- core/exchange_rates.py: the cached table of rates, and lenient and strict conversion.
pub mod Laws
use papertrail.Base.{
  ℕ, Bool, true, false, not, ◌||◌, Option, none, some, List, [], ◌∷◌, is_none, if◌then◌else◌, Text,
  text_eq, upper, Result, ok, raised, rate_unavailable, Action, is_blank,
}
use papertrail.Money.Decimal.{
  Decimal, of_ℕ, is_zero, multiply, divide, add, quantize_half_up, fraction,
}
use papertrail.Money.Currencies.{get_currency_decimals}

-- A rate is the price of one unit of the base in the named currency.
abbrev pub Rates : Type 0
Rates = List (Text × Decimal)

-- `rates.get(code)`.
unfoldable pub find_rate : Text → Rates → Option Decimal
find_rate code [] = none
find_rate code ((c, r) ∷ rates) =
    let later = find_rate code rates in if text_eq code c then some r else later

-- The two cache entries of one base currency; `none` is an entry that is missing or has expired.
pub record RateCache : Type 0 where
  pub fresh : Option Rates
  pub stale : Option Rates

fall_back : RateCache → Option Rates → Rates × RateCache
fall_back c none = ([], record c { fresh = some [] })
fall_back c (some rates) = (rates, record c { fresh = some [] })

refill : Rates → RateCache → Rates × RateCache
unfolding fall_back
refill [] c = fall_back c c.stale
refill (r ∷ rs) c = (r ∷ rs, record c { fresh = some (r ∷ rs); stale = some (r ∷ rs) })

-- `get_rates`; `fetched` is what `_fetch_rates` returns, empty when the service failed.
unfoldable pub get_rates : Rates → RateCache → Rates × RateCache
unfolding refill
get_rates fetched c = elim (c.fresh) [ some rates ↦ (rates, c) | none ↦ refill fetched c ]

-- The quotient of the rates, applied and rounded to the decimals of the target.
unfoldable pub apply_rates : Decimal → Decimal → Decimal → Text → Decimal
apply_rates amount from_rate to_rate to_curr =
    quantize_half_up (get_currency_decimals to_curr) (multiply amount (divide to_rate from_rate))

convert_by : Decimal → Text → Option Decimal → Option Decimal → Decimal
convert_by amount to_curr none to_rate = amount
convert_by amount to_curr (some f) none = amount
convert_by amount to_curr (some f) (some t) =
    if is_zero f then of_ℕ 0 else apply_rates amount f t to_curr

-- `convert`: without a rate the amount is returned as it is.
unfoldable pub convert : Decimal → Text → Text → Rates → Decimal
unfolding convert_by
convert amount from_curr to_curr rates =
    let f = upper from_curr in
    let t = upper to_curr in
    if text_eq f t || is_zero amount
    then amount
    else convert_by amount t (find_rate f rates) (find_rate t rates)

convert_strict_by : Decimal → Text → Option Decimal → Option Decimal → Result Decimal
convert_strict_by amount to_curr none to_rate = raised rate_unavailable
convert_strict_by amount to_curr (some f) none = raised rate_unavailable
convert_strict_by amount to_curr (some f) (some t) =
    if is_zero f || is_zero t then raised rate_unavailable else ok (apply_rates amount f t to_curr)

-- `convert_strict`: without a usable rate it raises.
unfoldable pub convert_strict : Decimal → Text → Text → Rates → Result Decimal
unfolding convert_strict_by
convert_strict amount from_curr to_curr rates =
    let f = upper from_curr in
    let t = upper to_curr in
    if text_eq f t || is_zero amount
    then ok amount
    else convert_strict_by amount t (find_rate f rates) (find_rate t rates)

convert_all : List (Decimal × Text) → Text → Rates → Decimal → Decimal
convert_all [] to_currency rates total = total
convert_all ((amount, currency) ∷ rest) to_currency rates total =
    convert_all rest to_currency rates (add total (convert amount currency to_currency rates))

-- `convert_batch`, with the rates that `get_rates("USD")` returned.
unfoldable pub convert_batch : List (Decimal × Text) → Text → Rates → Decimal
unfolding convert_all
convert_batch items to_currency rates = convert_all items to_currency rates (of_ℕ 0)
