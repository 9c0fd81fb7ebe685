-- ===== src/Records.antt =====
-- The records app: records, shares and the audit trail (records/*.py).
pub mod Model
pub mod Shares
pub mod Merging
pub mod Matching
pub mod Services
mod Tests
