-- ===== src/Idempotency.antt =====
-- The package internal/idempotency.
pub mod Key
pub mod Fingerprint
pub mod Digests
pub mod Store
