-- ===== src/Storage.antt =====
-- storage.py: transactions over the notes and the operation ledger of a vault.
pub mod Disk
pub mod Walk
pub mod Journal
pub mod Transaction
pub mod Session
pub mod Facts
pub mod Snapshot
pub mod Snapped
pub mod SetAside
pub mod PutBack
pub mod Actions
pub mod Outside
pub mod Restoring
pub mod Rollback
pub mod Guarantees
pub mod Commit
pub mod Move
