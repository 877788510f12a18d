-- ===== src/Admin.antt =====
-- Access control of the API (apps/api/src/admin): the allowlist and the service that changes it.
pub mod Allowlist
pub mod Service
pub mod Counts
pub mod Owners
pub mod Administered
pub mod Removal
mod Examples
