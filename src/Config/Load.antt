-- ===== src/Config/Load.antt =====
-- internal/config/config.go: `load`, which reads the whole environment and then validates.
use realtime_payments_ledger.Prelude.{Bool, not, List, [], ◌∷◌, ◌++◌}
use realtime_payments_ledger.Prelude.Int.{pos}
use realtime_payments_ledger.Prelude.Text.{bytes}
use realtime_payments_ledger.Config.Types.{
  App, Http, GrpcServer, Jwt, Postgres, Redis, IdempotencyTimes, Kafka, Config, env_development,
  is_production,
}
use realtime_payments_ledger.Config.Env.{
  Lookup, Std, Problem, Read, ◌>>=◌, pure, str, int_val, bool_val, duration, list,
}
use realtime_payments_ledger.Config.Validate.{validate}

-- A configuration, or all the problems.
pub data Loaded : Type 0 where
  loaded : Config → Loaded
  rejected : List Problem → Loaded

abbrev pub no_problems : Config → List Problem → Loaded
no_problems cfg [] = Loaded.loaded cfg
no_problems cfg (p ∷ rest) = Loaded.rejected (p ∷ rest)

module _ (std : Std) (lookup : Lookup) where
  unfoldable pub load_app : Read App
  load_app = do
    pure (record {
      name = str lookup (bytes "APP_NAME") (bytes "payments-ledger");
      environment = str lookup (bytes "APP_ENV") env_development;
      log_level = std.to_lower (str lookup (bytes "LOG_LEVEL") (bytes "info"));
      log_format = std.to_lower (str lookup (bytes "LOG_FORMAT") (bytes "json"));
    })

  unfoldable pub load_http : Read Http
  load_http = do
    port ← int_val lookup (bytes "HTTP_PORT") (pos 8080)
    read_timeout ← duration lookup std (bytes "HTTP_READ_TIMEOUT") (pos 5000000000)
    write_timeout ← duration lookup std (bytes "HTTP_WRITE_TIMEOUT") (pos 10000000000)
    idle_timeout ← duration lookup std (bytes "HTTP_IDLE_TIMEOUT") (pos 60000000000)
    shutdown_timeout ← duration lookup std (bytes "HTTP_SHUTDOWN_TIMEOUT") (pos 15000000000)
    pure (record {
      host = str lookup (bytes "HTTP_HOST") (bytes "0.0.0.0");
      port = port;
      read_timeout = read_timeout;
      write_timeout = write_timeout;
      idle_timeout = idle_timeout;
      shutdown_timeout = shutdown_timeout;
    })

  unfoldable pub load_grpc : Bool → Read GrpcServer
  load_grpc production = do
    port ← int_val lookup (bytes "GRPC_PORT") (pos 9090)
    shutdown_timeout ← duration lookup std (bytes "GRPC_SHUTDOWN_TIMEOUT") (pos 15000000000)
    reflection ← bool_val lookup (bytes "GRPC_REFLECTION") (not production)
    pure (record {
      host = str lookup (bytes "GRPC_HOST") (bytes "0.0.0.0");
      port = port;
      shutdown_timeout = shutdown_timeout;
      reflection = reflection;
    })

  unfoldable pub load_jwt : Read Jwt
  load_jwt = do
    leeway ← duration lookup std (bytes "JWT_LEEWAY") (pos 30000000000)
    pure (record {
      public_key_pem = str lookup (bytes "JWT_PUBLIC_KEY") [];
      public_key_file = str lookup (bytes "JWT_PUBLIC_KEY_FILE") [];
      issuer = str lookup (bytes "JWT_ISSUER") [];
      audience = str lookup (bytes "JWT_AUDIENCE") [];
      leeway = leeway;
    })

  unfoldable pub load_postgres : Read Postgres
  load_postgres = do
    port ← int_val lookup (bytes "POSTGRES_PORT") (pos 5432)
    max_open_conns ← int_val lookup (bytes "POSTGRES_MAX_OPEN_CONNS") (pos 25)
    max_idle_conns ← int_val lookup (bytes "POSTGRES_MAX_IDLE_CONNS") (pos 25)
    conn_max_lifetime ← duration lookup std (bytes "POSTGRES_CONN_MAX_LIFETIME") (pos 1800000000000)
    connect_timeout ← duration lookup std (bytes "POSTGRES_CONNECT_TIMEOUT") (pos 10000000000)
    pure (record {
      host = str lookup (bytes "POSTGRES_HOST") (bytes "localhost");
      port = port;
      user = str lookup (bytes "POSTGRES_USER") (bytes "ledger");
      password = str lookup (bytes "POSTGRES_PASSWORD") (bytes "ledger");
      database = str lookup (bytes "POSTGRES_DB") (bytes "ledger");
      ssl_mode = str lookup (bytes "POSTGRES_SSLMODE") (bytes "disable");
      max_open_conns = max_open_conns;
      max_idle_conns = max_idle_conns;
      conn_max_lifetime = conn_max_lifetime;
      connect_timeout = connect_timeout;
    })

  unfoldable pub load_redis : Read Redis
  load_redis = do
    db ← int_val lookup (bytes "REDIS_DB") (pos 0)
    dial_timeout ← duration lookup std (bytes "REDIS_DIAL_TIMEOUT") (pos 3000000000)
    command_timeout ← duration lookup std (bytes "REDIS_COMMAND_TIMEOUT") (pos 1000000000)
    pure (record {
      addr = str lookup (bytes "REDIS_ADDR") (bytes "localhost:6379");
      password = str lookup (bytes "REDIS_PASSWORD") [];
      db = db;
      dial_timeout = dial_timeout;
      command_timeout = command_timeout;
    })

  unfoldable pub load_idempotency : Read IdempotencyTimes
  load_idempotency = do
    ttl ← duration lookup std (bytes "IDEMPOTENCY_TTL") (pos 86400000000000)
    processing_ttl ← duration lookup std (bytes "IDEMPOTENCY_PROCESSING_TTL") (pos 30000000000)
    pure (record { ttl = ttl; processing_ttl = processing_ttl })

  unfoldable pub load_kafka : Read Kafka
  load_kafka = do
    pure (record {
      brokers = list lookup (bytes "KAFKA_BROKERS") (bytes "localhost:29092" ∷ []);
      audit_topic = str lookup (bytes "KAFKA_AUDIT_TOPIC") (bytes "ledger.audit.v1");
    })

  -- The literal of `load`, with the errors of its readers.
  unfoldable pub read_config : Read Config
  read_config = do
    app ← load_app
    http ← load_http
    grpc ← load_grpc (is_production (str lookup (bytes "APP_ENV") env_development))
    jwt ← load_jwt
    postgres ← load_postgres
    redis ← load_redis
    idempotency ← load_idempotency
    kafka ← load_kafka
    pure (record {
      app = app;
      http = http;
      grpc = grpc;
      jwt = jwt;
      postgres = postgres;
      redis = redis;
      idempotency = idempotency;
      kafka = kafka;
    })

  -- `load`
  unfoldable pub load : Loaded
  load = let (cfg, errs) = read_config in no_problems cfg (errs ++ validate cfg)
