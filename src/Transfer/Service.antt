-- ===== src/Transfer/Service.antt =====
-- The entry points of the service without an idempotency key, and the read of a transfer
-- (internal/transfer/transfer.go).
use realtime_payments_ledger.Prelude.{Option, none, some}
use realtime_payments_ledger.Errors.{Sentinel, Error, Result, ok, err, report}
use realtime_payments_ledger.Database.Rows.{Uuid, Transfer, TransferRow, Tables, find_transfer}
use realtime_payments_ledger.Database.Tx.{DriverError, driver_error}
use realtime_payments_ledger.Transfer.Command.{Command}
use realtime_payments_ledger.Transfer.Backoff.{RetryPolicy}
use realtime_payments_ledger.Transfer.Retrying.Loop.{World, Answer, post_with_retry}

-- `PostWithAttempts`
unfoldable pub post_with_attempts : World → RetryPolicy → Command → Tables → Option Answer
post_with_attempts w policy cmd s = post_with_retry w policy cmd none s

abbrev without_attempts : Option Answer → Option (Result Transfer × Tables)
without_attempts none = none
without_attempts (some (r, a, s)) = some (r, s)

-- `Post`
unfoldable pub post : World → RetryPolicy → Command → Tables → Option (Result Transfer × Tables)
post w policy cmd s = without_attempts (post_with_attempts w policy cmd s)

abbrev found : Option TransferRow → Result Transfer
found none = err (report Sentinel.transfer_not_found)
found (some t) = ok t.transfer

-- `Get`
unfoldable pub get : Option DriverError → Uuid → Tables → Result Transfer
get (some d) i s = err (Error.wrap (driver_error d))
get none i s = found (find_transfer i s.transfers)
