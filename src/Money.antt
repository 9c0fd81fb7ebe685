-- ===== src/Money.antt =====
-- Money: decimals, currencies, exchange rates and the platform fee (core/currencies.py,
-- core/exchange_rates.py, reimbursements/money.py).
pub mod Decimal
pub mod Currencies
pub mod ExchangeRates
pub mod PlatformFee
mod Tests
