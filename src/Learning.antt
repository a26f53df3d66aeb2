-- ===== src/Learning.antt =====
-- learning.py: candidates for memories, and what becomes of them.
pub mod Candidate
pub mod Import
pub mod Duplicate
pub mod Status
pub mod Sources
pub mod Metadata
pub mod Remember
pub mod Validity
pub mod Imported
pub mod Checked
pub mod Vouching
