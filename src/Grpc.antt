-- ===== src/Grpc.antt =====
-- internal/grpcapi: the interceptors, the handlers, and the statuses that errors become.
pub mod Status
pub mod Mapping
pub mod Interceptors
pub mod Gate
pub mod Convert
pub mod Service
pub mod Transfers
pub mod Accounts
pub mod Authorized
pub mod Lifecycle
pub mod Drain
