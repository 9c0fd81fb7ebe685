-- ===== src/Plaid.antt =====
-- The plaid_integration app: bank items, their webhooks, and the sync of their transactions into
-- records (plaid_integration/*.py).
pub mod Model
pub mod Folders
pub mod Services
pub mod Syncing
mod Tests
