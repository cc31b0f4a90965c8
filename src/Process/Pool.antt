-- ===== src/Process/Pool.antt =====
-- internal/database/database.go: the connection pool. pgxpool is a parameter: what `ParseConfig`,
-- `NewWithConfig` and a ping report.
use realtime_payments_ledger.Prelude.{Option, none, some}
use realtime_payments_ledger.Prelude.Int.{ℤ}
use realtime_payments_ledger.Prelude.Text.{GoString}
use realtime_payments_ledger.Errors.{Error, Result, ok, err}
use realtime_payments_ledger.Config.Types.{Config}
use realtime_payments_ledger.Config.Secrets.{dsn, redacted_dsn}
use realtime_payments_ledger.Config.Wiring.{max_conns}

-- The settings that `New` makes.
pub record PoolConfig : Type 0 where
  pub max_conns : ℤ
  pub max_conn_lifetime : ℤ
  pub connect_timeout : ℤ
  pub application_name : GoString

pub record PgxPool : Type 0 where
  pub parse_config : GoString → Option Error
  pub new_with_config : PoolConfig → Option Error

-- `DB`, without the pool itself and the logger.
pub record Db : Type 0 where
  pub pool : PoolConfig
  pub connect_timeout : ℤ
  pub redacted_dsn : GoString

abbrev pool_config : Config → PoolConfig
pool_config c = record {
  max_conns = max_conns c.postgres;
  max_conn_lifetime = c.postgres.conn_max_lifetime;
  connect_timeout = c.postgres.connect_timeout;
  application_name = c.app.name;
}

abbrev created : Config → Option Error → Result Db
created c (some e) = err (Error.wrap e)
created c none = ok (record {
  pool = pool_config c;
  connect_timeout = c.postgres.connect_timeout;
  redacted_dsn = redacted_dsn c.postgres;
})

abbrev parsed : PgxPool → Config → Option Error → Result Db
parsed lib c (some e) = err (Error.wrap e)
parsed lib c none = created c (lib.new_with_config (pool_config c))

-- `New`
unfoldable pub new_pool : PgxPool → Config → Result Db
new_pool lib c = parsed lib c (lib.parse_config (dsn c.postgres c.postgres.password))

abbrev pub wrapped : Option Error → Option Error
wrapped none = none
wrapped (some e) = some (Error.wrap e)

-- `Verify`, where the parameter is what the server answers within so many nanoseconds.
unfoldable pub verify_pool : (ℤ → Option Error) → Db → Option Error
verify_pool ping db = wrapped (ping db.connect_timeout)

-- `Ping`
unfoldable pub ping_pool : Option Error → Option Error
ping_pool ping = wrapped ping
