-- ===== src/Reimbursements/Invariants.antt =====
-- What no event from Stripe and no reconciling task can break (reimbursements/webhooks.py,
-- tasks.py).
pub mod Consistency
pub mod Trail
pub mod Terms
