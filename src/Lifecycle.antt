-- ===== src/Lifecycle.antt =====
-- lifecycle.py: what a reviewer does with memories.
pub mod Review
pub mod Cleared
pub mod Replace
pub mod Reviewed
pub mod Promoted
