-- ===== src/Transfer/Retrying.antt =====
-- The bounded retry loop: `retryableCode`, `Attempts` (internal/transfer/retry.go), `NewServiceWithPolicy`,
-- `postWithRetry`, `PostWithAttempts` and `Post` (internal/transfer/transfer.go).
pub mod Loop
pub mod Rule
pub mod Counts
pub mod Paced
pub mod Trace
