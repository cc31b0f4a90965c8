-- ===== src/Process/RedisClient.antt =====
-- internal/redisclient: the Redis client. go-redis is a parameter: what a ping of the client made from
-- these options reports.
use realtime_payments_ledger.Prelude.{Option}
use realtime_payments_ledger.Prelude.Int.{ℤ}
use realtime_payments_ledger.Prelude.Text.{GoString}
use realtime_payments_ledger.Errors.{Error}
use realtime_payments_ledger.Config.Types.{Config}
use realtime_payments_ledger.Process.Pool.{wrapped}

pub record RedisOptions : Type 0 where
  pub addr : GoString
  pub password : GoString
  pub db : ℤ
  pub dial_timeout : ℤ
  pub read_timeout : ℤ
  pub write_timeout : ℤ

-- `New`
unfoldable pub new_client : Config → RedisOptions
new_client c = record {
  addr = c.redis.addr;
  password = c.redis.password;
  db = c.redis.db;
  dial_timeout = c.redis.dial_timeout;
  read_timeout = c.redis.command_timeout;
  write_timeout = c.redis.command_timeout;
}

-- `Verify`
unfoldable pub verify_client : (RedisOptions → Option Error) → RedisOptions → Option Error
verify_client ping client = wrapped (ping client)
