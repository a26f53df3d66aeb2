-- ===== src/Lease.antt =====
-- leases.py: the store of task leases.
pub mod Store
pub mod Exclusion
