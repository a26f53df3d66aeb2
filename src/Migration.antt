-- ===== src/Migration.antt =====
-- migrations.py.
pub mod Metadata
pub mod Idempotent
