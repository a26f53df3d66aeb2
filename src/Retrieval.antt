-- ===== src/Retrieval.antt =====
-- The retrieval of compiler.py.
pub mod View
pub mod Fitting
pub mod Plan
pub mod Sufficiency
pub mod Payload
pub mod Cuts
pub mod Known
pub mod Delivered
pub mod Outcome
pub mod Shown
pub mod Coverage
pub mod Eligible
pub mod Admitted
pub mod Offer
pub mod Allocate
pub mod Ended
pub mod Allocated
