-- ===== src/Onchain.antt =====
-- The synchronisation of transfers into the database (packages/onchain-data).
pub mod Evm
pub mod Sync
pub mod Inserts
pub mod Batches
pub mod Synced
pub mod Again
pub mod Cardano
pub mod CardanoSync
pub mod CardanoPages
pub mod CardanoResume
mod Examples
mod CardanoExamples
