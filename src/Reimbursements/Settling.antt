-- ===== src/Reimbursements/Settling.antt =====
-- What settling a package and reversing it do to the database (`mark_as_paid` and
-- `mark_as_refunded` of reimbursements/models.py, and the handlers that call them).
pub mod Frame
pub mod Paid
pub mod Items
pub mod Reopened
pub mod Outcome
pub mod Reverted
pub mod Session
