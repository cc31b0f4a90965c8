-- ===== src/Transfer.antt =====
-- internal/transfer: the posting of transfers.
pub mod Command
pub mod Locking
pub mod Posting
mod Statements
pub mod Posted
pub mod Balances
pub mod Books
mod Entries
pub mod Soundness
pub mod Atomic
pub mod Refusals
pub mod Deadlock
pub mod Backoff
pub mod Retrying
pub mod Service
pub mod Idempotent
