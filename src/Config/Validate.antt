-- ===== src/Config/Validate.antt =====
-- internal/config/config.go: `validate`.
use realtime_payments_ledger.Prelude.{
  Bool, ◌&&◌, ◌||◌, not, List, [], ◌∷◌, ◌++◌, length, ◌==◌, if◌then◌else◌,
}
use realtime_payments_ledger.Prelude.Int.{ℤ, pos, ltb_ℤ, leb_ℤ, eqb_ℤ}
use realtime_payments_ledger.Prelude.Text.{GoString, bytes, str_eq}
use realtime_payments_ledger.Prelude.Spaces.{trim_space}
use realtime_payments_ledger.Auth.Bearer.{is_empty}
use realtime_payments_ledger.Config.Types.{
  App, Http, GrpcServer, Jwt, Postgres, Redis, IdempotencyTimes, Kafka, Config, env_development,
  env_staging, env_production, env_test, is_production,
}
use realtime_payments_ledger.Config.Env.{Problem, is_one_of}

-- A test and the variable to complain of where it is true.
abbrev pub Rule : Type 0
Rule = Bool × GoString

abbrev pub valid_ssl_modes : List GoString
valid_ssl_modes =
    bytes "disable"
    ∷ bytes "allow"
    ∷ bytes "prefer"
    ∷ bytes "require"
    ∷ bytes "verify-ca"
    ∷ bytes "verify-full"
    ∷ []

abbrev pub valid_log_levels : List GoString
valid_log_levels = bytes "debug" ∷ bytes "info" ∷ bytes "warn" ∷ bytes "error" ∷ []

abbrev pub valid_log_formats : List GoString
valid_log_formats = bytes "json" ∷ bytes "text" ∷ []

abbrev pub valid_environments : List GoString
valid_environments = env_development ∷ env_staging ∷ env_production ∷ env_test ∷ []

abbrev pub negative : ℤ → Bool
negative n = ltb_ℤ n (pos 0)

abbrev pub not_positive : ℤ → Bool
not_positive n = leb_ℤ n (pos 0)

abbrev pub too_large : ℤ → Bool
too_large port = ltb_ℤ (pos 65535) port

abbrev pub app_rules : App → List Rule
app_rules a =
    (is_empty (trim_space a.name), bytes "APP_NAME")
    ∷ (not (is_one_of a.environment valid_environments), bytes "APP_ENV")
    ∷ (not (is_one_of a.log_level valid_log_levels), bytes "LOG_LEVEL")
    ∷ (not (is_one_of a.log_format valid_log_formats), bytes "LOG_FORMAT")
    ∷ []

abbrev pub http_rules : Http → List Rule
http_rules h =
    (is_empty h.host, bytes "HTTP_HOST")
    ∷ (negative h.port || too_large h.port, bytes "HTTP_PORT")
    ∷ (not_positive h.read_timeout, bytes "HTTP_READ_TIMEOUT")
    ∷ (not_positive h.write_timeout, bytes "HTTP_WRITE_TIMEOUT")
    ∷ (not_positive h.idle_timeout, bytes "HTTP_IDLE_TIMEOUT")
    ∷ (not_positive h.shutdown_timeout, bytes "HTTP_SHUTDOWN_TIMEOUT")
    ∷ []

abbrev pub postgres_rules : Bool → Postgres → List Rule
postgres_rules production p =
    (is_empty p.host, bytes "POSTGRES_HOST")
    ∷ (ltb_ℤ p.port (pos 1) || too_large p.port, bytes "POSTGRES_PORT")
    ∷ (is_empty p.user, bytes "POSTGRES_USER")
    ∷ (is_empty p.database, bytes "POSTGRES_DB")
    ∷ (not (is_one_of p.ssl_mode valid_ssl_modes), bytes "POSTGRES_SSLMODE")
    ∷ (ltb_ℤ p.max_open_conns (pos 1), bytes "POSTGRES_MAX_OPEN_CONNS")
    ∷ (negative p.max_idle_conns, bytes "POSTGRES_MAX_IDLE_CONNS")
    ∷ (ltb_ℤ p.max_open_conns p.max_idle_conns, bytes "POSTGRES_MAX_IDLE_CONNS")
    ∷ (negative p.conn_max_lifetime, bytes "POSTGRES_CONN_MAX_LIFETIME")
    ∷ (not_positive p.connect_timeout, bytes "POSTGRES_CONNECT_TIMEOUT")
    ∷ (production && str_eq p.ssl_mode (bytes "disable"), bytes "POSTGRES_SSLMODE")
    ∷ []

abbrev pub grpc_rules : Http → GrpcServer → List Rule
grpc_rules h g =
    (is_empty g.host, bytes "GRPC_HOST")
    ∷ (negative g.port || too_large g.port, bytes "GRPC_PORT")
    ∷ (not (eqb_ℤ g.port (pos 0)) && eqb_ℤ g.port h.port, bytes "GRPC_PORT")
    ∷ (not_positive g.shutdown_timeout, bytes "GRPC_SHUTDOWN_TIMEOUT")
    ∷ []

abbrev pub jwt_rules : Bool → GrpcServer → Jwt → List Rule
jwt_rules production g j =
    (negative j.leeway, bytes "JWT_LEEWAY")
    ∷ (ltb_ℤ (pos 300000000000) j.leeway, bytes "JWT_LEEWAY")
    ∷ (not (is_empty j.public_key_pem) && not (is_empty j.public_key_file), bytes "JWT_PUBLIC_KEY")
    ∷ (production && is_empty j.issuer, bytes "JWT_ISSUER")
    ∷ (production && is_empty j.audience, bytes "JWT_AUDIENCE")
    ∷ (
      production && is_empty j.public_key_pem && is_empty j.public_key_file,
      bytes "JWT_PUBLIC_KEY",
    )
    ∷ (production && g.reflection, bytes "GRPC_REFLECTION")
    ∷ []

abbrev pub redis_rules : Redis → List Rule
redis_rules r =
    (is_empty r.addr, bytes "REDIS_ADDR")
    ∷ (negative r.db, bytes "REDIS_DB")
    ∷ (not_positive r.dial_timeout, bytes "REDIS_DIAL_TIMEOUT")
    ∷ (not_positive r.command_timeout, bytes "REDIS_COMMAND_TIMEOUT")
    ∷ []

abbrev pub idempotency_rules : IdempotencyTimes → List Rule
idempotency_rules i =
    (not_positive i.ttl, bytes "IDEMPOTENCY_TTL")
    ∷ (not_positive i.processing_ttl, bytes "IDEMPOTENCY_PROCESSING_TTL")
    ∷ (ltb_ℤ i.ttl i.processing_ttl, bytes "IDEMPOTENCY_PROCESSING_TTL")
    ∷ []

abbrev pub kafka_rules : Kafka → List Rule
kafka_rules k =
    (length k.brokers == 0, bytes "KAFKA_BROKERS")
    ∷ (is_empty k.audit_topic, bytes "KAFKA_AUDIT_TOPIC")
    ∷ []

-- The rules in the order in which `validate` tests them.
abbrev pub rules : Config → List (List Rule)
rules c =
    app_rules c.app
    ∷ http_rules c.http
    ∷ postgres_rules (is_production c.app.environment) c.postgres
    ∷ grpc_rules c.http c.grpc
    ∷ jwt_rules (is_production c.app.environment) c.grpc c.jwt
    ∷ redis_rules c.redis
    ∷ idempotency_rules c.idempotency
    ∷ kafka_rules c.kafka
    ∷ []

unfoldable pub broken : List Rule → List Problem
broken [] = []
broken ((bad, variable) ∷ rest) =
    let after = broken rest in if bad then Problem.invalid variable ∷ after else after

unfoldable pub all_broken : List (List Rule) → List Problem
all_broken [] = []
all_broken (part ∷ rest) = broken part ++ all_broken rest

-- `validate`
unfoldable pub validate : Config → List Problem
validate c = all_broken (rules c)
