-- ===== src/Orchestrator.antt =====
-- apps/workflows/src/workflows/orchestrator.workflow.ts, the run of one snapshot, and the helpers of
-- apps/workflows/src/shared/utils that it calls. The activities are parameters.
pub mod Model
pub mod Presets
pub mod Targets
pub mod Community
pub mod Traces
pub mod Phases
pub mod Resolving
pub mod Run
pub mod Settled
pub mod Described
pub mod Published
pub mod Collected
pub mod Children
pub mod Windows
pub mod Ordered
pub mod Gates
mod Examples
