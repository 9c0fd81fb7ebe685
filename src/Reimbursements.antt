-- ===== src/Reimbursements.antt =====
-- The reimbursements app (reimbursements/*.py).
pub mod Model
pub mod Access
pub mod Package
pub mod Payment
pub mod Settlement
pub mod Lookup
pub mod Webhooks
pub mod LineItems
pub mod Checkout
pub mod Creation
pub mod Tasks
pub mod Verification
pub mod Reconciliation
pub mod Writes
pub mod Invariants
pub mod Delivery
pub mod Settling
pub mod Tests
