-- ===== src/Tokens.antt =====
-- The scoring of token holdings over time
-- (apps/workflows/src/activities/typescript/algorithms/token-value-over-time).
pub mod Lots
pub mod Firsts
pub mod Resources
pub mod Normalize
pub mod Selection
pub mod Fifo
pub mod Transfers
pub mod Replay
pub mod Pages
mod Examples
mod SelectionExamples
