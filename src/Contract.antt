-- ===== src/Contract.antt =====
-- internal/contract.
pub mod Integer
pub mod Pattern
pub mod CsvOutput
pub mod Pointer
pub mod Schema
