-- ===== src/Tests.antt =====
-- Inputs, tests, and the properties at those inputs.
mod Fixtures
mod Posting
mod Retrying
mod Idempotent
mod Reading
mod Reconcile
mod Auth
mod Health
mod Grpc
mod Config
mod Load
mod LoadRun
mod Process
mod Lifecycle
mod Minted
