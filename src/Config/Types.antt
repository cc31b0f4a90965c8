-- ===== src/Config/Types.antt =====
-- internal/config/config.go: the types. A duration is a number of nanoseconds.
use realtime_payments_ledger.Prelude.{Bool, not, List, ◌&&◌}
use realtime_payments_ledger.Prelude.Int.{ℤ}
use realtime_payments_ledger.Prelude.Text.{GoString, bytes, str_eq}
use realtime_payments_ledger.Auth.Bearer.{is_empty}

abbrev pub env_development : GoString
env_development = bytes "development"

abbrev pub env_staging : GoString
env_staging = bytes "staging"

abbrev pub env_production : GoString
env_production = bytes "production"

abbrev pub env_test : GoString
env_test = bytes "test"

-- `IsProduction`
unfoldable pub is_production : GoString → Bool
is_production e = str_eq e env_production

pub record App : Type 0 where
  pub name : GoString
  pub environment : GoString
  pub log_level : GoString
  pub log_format : GoString

pub record Http : Type 0 where
  pub host : GoString
  pub port : ℤ
  pub read_timeout : ℤ
  pub write_timeout : ℤ
  pub idle_timeout : ℤ
  pub shutdown_timeout : ℤ

pub record GrpcServer : Type 0 where
  pub host : GoString
  pub port : ℤ
  pub shutdown_timeout : ℤ
  pub reflection : Bool

pub record Jwt : Type 0 where
  pub public_key_pem : GoString
  pub public_key_file : GoString
  pub issuer : GoString
  pub audience : GoString
  pub leeway : ℤ

pub record Postgres : Type 0 where
  pub host : GoString
  pub port : ℤ
  pub user : GoString
  pub password : GoString
  pub database : GoString
  pub ssl_mode : GoString
  pub max_open_conns : ℤ
  pub max_idle_conns : ℤ
  pub conn_max_lifetime : ℤ
  pub connect_timeout : ℤ

pub record Redis : Type 0 where
  pub addr : GoString
  pub password : GoString
  pub db : ℤ
  pub dial_timeout : ℤ
  pub command_timeout : ℤ

pub record IdempotencyTimes : Type 0 where
  pub ttl : ℤ
  pub processing_ttl : ℤ

pub record Kafka : Type 0 where
  pub brokers : List GoString
  pub audit_topic : GoString

pub record Config : Type 0 where
  pub app : App
  pub http : Http
  pub grpc : GrpcServer
  pub jwt : Jwt
  pub postgres : Postgres
  pub redis : Redis
  pub idempotency : IdempotencyTimes
  pub kafka : Kafka

-- `Configured`
unfoldable pub configured : Jwt → Bool
configured j =
    not (is_empty j.public_key_pem) && not (is_empty j.issuer) && not (is_empty j.audience)
