-- ===== src/Tests.antt =====
-- Runs of the definitions, and the theorems at concrete inputs.
mod Storage
mod Samples
mod Gate
mod Evidence
mod Lease
mod Retrieval
mod Context
mod Migration
mod Learning
mod Payload
mod Eligible
mod Lifecycle
mod Allocate
