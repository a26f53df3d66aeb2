-- ===== src/Evidence.antt =====
-- evidence.py: the evidence store and the ledger of operations.
pub mod Records
pub mod Store
pub mod Ledger
pub mod Verified
pub mod Latest
