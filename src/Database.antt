-- ===== src/Database.antt =====
-- PostgreSQL as the service uses it: rows, transactions, statements.
pub mod Rows
pub mod Tx
pub mod Inversion
pub mod Statements
