-- ===== src/Storage.antt =====
-- packages/storage: object keys, and the service around the object store.
pub mod Keys
pub mod Objects
pub mod Bulk
pub mod Checked
pub mod Batches
mod ObjectExamples
