-- ===== src/Validator.antt =====
-- packages/algorithm-validator: what a preset must satisfy before an algorithm runs on it.
pub mod Wallets
pub mod Passed
pub mod WalletFiles
pub mod CsvTexts
pub mod Csv
pub mod CsvFiles
pub mod Properties
pub mod Presets
pub mod Payloads
pub mod Files
pub mod Selected
pub mod Offered
pub mod Nested
pub mod Keys
pub mod Accepted
pub mod Opened
pub mod Valid
pub mod Depth
mod Examples
mod CsvExamples
mod PresetExamples
