-- ===== src/Billing.antt =====
-- The billing app: storage accounting and what a plan allows (billing/*.py, documents/signals.py).
pub mod Storage
pub mod Plans
pub mod Entitlements
mod Tests
