-- ===== src/Config.antt =====
-- internal/config: the configuration that the process reads from its environment.
pub mod Types
pub mod Env
pub mod Load
pub mod Validate
pub mod Words
pub mod Listeners
pub mod Clients
pub mod Exact
pub mod Secrets
pub mod Wiring
