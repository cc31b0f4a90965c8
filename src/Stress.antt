-- ===== src/Stress.antt =====
-- cmd/stress/main.go: the load test.
pub mod Commands
pub mod Runnable
pub mod Execute
pub mod Turns
pub mod Sound
pub mod Counters
pub mod Tallied
pub mod Rounds
pub mod Answered
pub mod Recorded
pub mod Retries
pub mod Ends
pub mod Setup
pub mod Opened
pub mod Run
pub mod Holds
pub mod Whole
