-- ===== src/Examples.antt =====
-- The theorems at concrete inputs, and tests of the definitions.
mod Samples
mod Editing
mod Pairing
mod Retry
mod Reconcile
mod Validator
mod Planner
mod Batching
mod Alignment
mod ChunkReconcile
mod CrossPage
mod Enrich
mod Finalize
mod Identity
mod TokenRealign
mod LineAcceptance
