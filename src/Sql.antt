-- ===== src/Sql.antt =====
-- internal/sqlsyntax/sql.go, and the rewriting of named parameters in internal/agent/sql.go.
pub mod Regions
pub mod Classify
pub mod Bind
