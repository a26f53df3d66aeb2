-- ===== src/Gate.antt =====
-- The gates.
pub mod Externals
pub mod Chain
pub mod Trust
pub mod Taints
pub mod Scope
pub mod Applicability
pub mod Read
pub mod Isolation
pub mod Times
pub mod Sources
pub mod Named
pub mod Matching
pub mod Applicable
pub mod Readable
pub mod Conflicts
pub mod Disputed
