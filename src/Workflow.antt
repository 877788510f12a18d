-- ===== src/Workflow.antt =====
-- The workflows that compute a snapshot (apps/workflows/src/workflows).
pub mod Readiness
pub mod Deadline
pub mod Lifecycle
pub mod Rounds
mod Examples
