-- ===== src/Documents.antt =====
-- The documents app: uploads (documents/services/validation.py).
pub mod Uploads
mod Tests
