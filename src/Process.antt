-- ===== src/Process.antt =====
-- The processes around the packages: the connections, `run` of cmd/api, and cmd/devtoken.
pub mod Pool
pub mod RedisClient
pub mod Start
pub mod Outcome
pub mod DevToken
pub mod Minted
