-- ===== src/Snapshot.antt =====
-- The snapshots of the API (apps/api/src/snapshot): rows, their state machine, the updates that the
-- workflow sends, the start of a workflow, and the reconciler.
pub mod Status
pub mod Repository
pub mod Service
pub mod Reconciler
pub mod Rows
pub mod Progress
pub mod Repeats
pub mod Stamps
pub mod Launch
pub mod Served
pub mod Pass
pub mod Settling
pub mod Listed
pub mod Settled
pub mod Spared
mod Examples
