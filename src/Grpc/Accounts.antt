-- ===== src/Grpc/Accounts.antt =====
-- `CreateAccount` and `GetAccount` (internal/grpcapi/service.go) together.
use realtime_payments_ledger.Money
use realtime_payments_ledger.Money.{parse_currency}
use realtime_payments_ledger.Database.Rows.{Account}
use realtime_payments_ledger.Account
