-- ===== src/Sql.antt =====
-- internal/server/sql_execution.go: the single-statement guard and the run of a transaction.
pub mod Lexer
pub mod Validate
pub mod Transaction
