-- ===== src/Money/PlatformFee.antt =====
-- reimbursements/money.py: the application fee of a destination charge.
pub mod Bounds
use papertrail.Base.{
  ℕ, zero, suc, ◌+◌, Result, ok, raised, ltb_ℤ, max_ℤ, ℤ, pos, negsuc, ◌+ℤ◌, Text, text,
  if◌then◌else◌,
}
use papertrail.Base.Raising.{◌>>=◌}
use papertrail.Money.Decimal.{Decimal, of_ℕ, fraction, add, multiply, quantize_ceiling, to_int}
use papertrail.Money.Currencies.{to_stripe_amount}
use papertrail.Money.ExchangeRates.{Rates, convert_strict}

-- The constants as `_cfg` reads them, each from the settings or its default.
pub record FeeSettings : Type 0 where
  pub stripe_fee_percent : Decimal
  pub stripe_fee_safety_percent : Decimal
  pub stripe_fee_fixed_usd : Decimal
  pub platform_net_percent : Decimal
  pub platform_net_min_usd : Decimal

abbrev pub default_settings : FeeSettings
default_settings = record {
  stripe_fee_percent = fraction 29 3;
  stripe_fee_safety_percent = fraction 3 3;
  stripe_fee_fixed_usd = fraction 30 2;
  platform_net_percent = fraction 1 2;
  platform_net_min_usd = fraction 25 2;
}

unfoldable pub converted_units : Decimal → Text → Rates → Result ℤ
converted_units usd_amount payer_currency rates = do
  converted ← convert_strict usd_amount (text "usd") payer_currency rates
  ok (to_stripe_amount converted payer_currency)

-- `int((total * percent).quantize(Decimal("1"), rounding=ROUND_CEILING))`.
unfoldable pub percentage : ℕ → Decimal → ℤ
percentage total percent = to_int (quantize_ceiling 0 (multiply (of_ℕ total) percent))

-- The fee is capped at the total.
unfoldable pub cap_fee : ℕ → ℤ → ℤ
cap_fee total application_fee =
    if ltb_ℤ (pos total) application_fee then pos total else application_fee

-- `PlatformFeeCalculator.compute`.
unfoldable pub compute : FeeSettings → ℤ → Text → Rates → Result ℤ
compute settings (negsuc n) payer_currency rates = ok (pos 0)
compute settings (pos zero) payer_currency rates = ok (pos 0)
compute settings (pos (suc n)) payer_currency rates = do
  let total = suc n
  let fee_percent = add settings.stripe_fee_percent settings.stripe_fee_safety_percent
  fixed ← converted_units settings.stripe_fee_fixed_usd payer_currency rates
  let estimated_processing_units = percentage total fee_percent +ℤ fixed
  net_min ← converted_units settings.platform_net_min_usd payer_currency rates
  let net_margin_units = max_ℤ (percentage total settings.platform_net_percent) net_min
  ok (cap_fee total (estimated_processing_units +ℤ net_margin_units))
