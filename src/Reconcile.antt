-- ===== src/Reconcile.antt =====
-- The package internal/reconcile: the audit of the books.
pub mod Check
pub mod Audit
pub mod DoubleEntry
pub mod Exact
pub mod Clean
