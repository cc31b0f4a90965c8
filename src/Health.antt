-- ===== src/Health.antt =====
-- internal/health: the registry of checks, and the report of a run.
pub mod Registry
pub mod Names
pub mod Orders
pub mod Run
pub mod Aggregate
pub mod Probes
