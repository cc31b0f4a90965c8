-- ===== src/Transfer/Idempotent.antt =====
-- Posting under an idempotency key: the definitions (Run), and proofs about them.
pub mod Run
pub mod Answers
pub mod Once
pub mod Redis
