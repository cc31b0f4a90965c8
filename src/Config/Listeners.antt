-- ===== src/Config/Listeners.antt =====
-- What `validate` (internal/config/config.go) accepts for the process, its two listeners and PostgreSQL.
use realtime_payments_ledger.Prelude.{◌≡◌, ◌≢◌, Bool, true, [], arith}
use realtime_payments_ledger.Prelude.Int.{pos, ◌≤ℤ◌}
use realtime_payments_ledger.Prelude.Text.{bytes, str_eq_iff}
use realtime_payments_ledger.Prelude.Spaces.{trim_space}
use realtime_payments_ledger.Config.Types.{App, Http, GrpcServer, Postgres}
use realtime_payments_ledger.Config.Validate.{
  app_rules, http_rules, postgres_rules, grpc_rules, valid_ssl_modes, valid_log_levels,
  valid_log_formats, valid_environments,
}
use realtime_payments_ledger.Config.Words.{
  Positive, NonNegative, IsPort, OneOf, Kept, nonempty, empty_false, one_of, one_of_false,
  other_mode,
}

pub record AppKept (a : App) : Type 0 where
  pub named : trim_space a.name ≢ []
  pub environment : OneOf a.environment valid_environments
  pub level : OneOf a.log_level valid_log_levels
  pub format : OneOf a.log_format valid_log_formats

pub app-AppKept : (a : App) → Kept (app_rules a) → AppKept a
app-AppKept a kept = record {
  named = nonempty _ kept.0;
  environment = one_of _ valid_environments kept.1.0;
  level = one_of _ valid_log_levels kept.1.1.0;
  format = one_of _ valid_log_formats kept.1.1.1.0;
}

pub app_rules-Kept : (a : App) → AppKept a → Kept (app_rules a)
app_rules-Kept a ok = (
  empty_false _ ok.named,
  (
    one_of_false _ valid_environments ok.environment,
    (one_of_false _ valid_log_levels ok.level, (one_of_false _ valid_log_formats ok.format, tt)),
  ),
)

pub record HttpKept (h : Http) : Type 0 where
  pub host : h.host ≢ []
  pub port : IsPort h.port
  pub reads : Positive h.read_timeout
  pub writes : Positive h.write_timeout
  pub idles : Positive h.idle_timeout
  pub stops : Positive h.shutdown_timeout

pub http-HttpKept : (h : Http) → Kept (http_rules h) → HttpKept h
http-HttpKept h kept = record {
  host = nonempty _ kept.0;
  port = ground (arith, kept.1.0);
  reads = ground (arith, kept.1.1.0);
  writes = ground (arith, kept.1.1.1.0);
  idles = ground (arith, kept.1.1.1.1.0);
  stops = ground (arith, kept.1.1.1.1.1.0);
}

pub http_rules-Kept : (h : Http) → HttpKept h → Kept (http_rules h)
http_rules-Kept h ok = (
  empty_false _ ok.host,
  (
    ground (arith, ok.port),
    (
      ground (arith, ok.reads),
      (ground (arith, ok.writes), (ground (arith, ok.idles), (ground (arith, ok.stops), tt))),
    ),
  ),
)

pub record PostgresKept (production : Bool) (p : Postgres) : Type 0 where
  pub host : p.host ≢ []
  pub port : IsPort p.port × Positive p.port
  pub user : p.user ≢ []
  pub database : p.database ≢ []
  pub ssl_mode : OneOf p.ssl_mode valid_ssl_modes
  pub some_open : Positive p.max_open_conns
  pub idle : NonNegative p.max_idle_conns
  pub idle_open : p.max_idle_conns ≤ℤ p.max_open_conns
  pub lifetime : NonNegative p.conn_max_lifetime
  pub connects : Positive p.connect_timeout
  pub encrypted : production ≡ true → p.ssl_mode ≢ bytes "disable"

pub postgres-PostgresKept :
    (production : Bool) (p : Postgres)
    → Kept (postgres_rules production p)
    → PostgresKept production p
postgres-PostgresKept production p kept = record {
  host = nonempty _ kept.0;
  port = ground (arith, kept.1.0);
  user = nonempty _ kept.1.1.0;
  database = nonempty _ kept.1.1.1.0;
  ssl_mode = one_of _ valid_ssl_modes kept.1.1.1.1.0;
  some_open = ground (arith, kept.1.1.1.1.1.0);
  idle = ground (arith, kept.1.1.1.1.1.1.0);
  idle_open = ground (arith, kept.1.1.1.1.1.1.1.0);
  lifetime = ground (arith, kept.1.1.1.1.1.1.1.1.0);
  connects = ground (arith, kept.1.1.1.1.1.1.1.1.1.0);
  encrypted = λ q s.
      ground (arith, kept.1.1.1.1.1.1.1.1.1.1.0, q, (str_eq_iff p.ssl_mode (bytes "disable")).1 s);
}

pub postgres_rules-Kept :
    (production : Bool) (p : Postgres)
    → PostgresKept production p
    → Kept (postgres_rules production p)
postgres_rules-Kept production p ok = (
  empty_false _ ok.host,
  (
    ground (arith, ok.port),
    (
      empty_false _ ok.user,
      (
        empty_false _ ok.database,
        (
          one_of_false _ valid_ssl_modes ok.ssl_mode,
          (
            ground (arith, ok.some_open),
            (
              ground (arith, ok.idle),
              (
                ground (arith, ok.idle_open),
                (
                  ground (arith, ok.lifetime),
                  (
                    ground (arith, ok.connects),
                    (other_mode production p.ssl_mode ok.encrypted, tt),
                  ),
                ),
              ),
            ),
          ),
        ),
      ),
    ),
  ),
)

pub record GrpcKept (h : Http) (g : GrpcServer) : Type 0 where
  pub host : g.host ≢ []
  pub port : IsPort g.port
  pub apart : g.port ≢ pos 0 → g.port ≢ h.port
  pub stops : Positive g.shutdown_timeout

pub grpc-GrpcKept : (h : Http) (g : GrpcServer) → Kept (grpc_rules h g) → GrpcKept h g
grpc-GrpcKept h g kept = record {
  host = nonempty _ kept.0;
  port = ground (arith, kept.1.0);
  apart = λ q s. ground (arith, kept.1.1.0, q, s);
  stops = ground (arith, kept.1.1.1.0);
}

pub grpc_rules-Kept : (h : Http) (g : GrpcServer) → GrpcKept h g → Kept (grpc_rules h g)
grpc_rules-Kept h g ok = (
  empty_false _ ok.host,
  (ground (arith, ok.port), (ground (arith, ok.apart), (ground (arith, ok.stops), tt))),
)
