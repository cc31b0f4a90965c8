-- ===== src/Auth.antt =====
-- internal/auth: bearer tokens, their verification, and the scopes of the caller.
pub mod Principal
pub mod Bearer
pub mod Tokens
pub mod Verifier
pub mod Verified
