-- ===== src/Process/Start.antt =====
-- cmd/api/main.go: `run` and `newLogger`, with the lifecycle of the HTTP server (`Start`, `Shutdown`,
-- `Run`, `Addr` of internal/httpapi/server.go) that it waits for. The listener, `net/http` and the
-- gRPC server as a whole are what the outside makes of them.
use realtime_payments_ledger.Prelude.{Bool, Option, none, some, List, [], ◌∷◌, ◌++◌, if◌then◌else◌}
use realtime_payments_ledger.Prelude.Int.{ℤ}
use realtime_payments_ledger.Prelude.Text.{GoString, bytes, str_eq}
use realtime_payments_ledger.Errors.{Error, Result, ok, err}
use realtime_payments_ledger.Auth.Verifier.{Libraries, Verifier}
use realtime_payments_ledger.Config.Types.{App, Config}
use realtime_payments_ledger.Config.Env.{Lookup, Std}
use realtime_payments_ledger.Config.Load.{Loaded, load}
use realtime_payments_ledger.Config.Wiring.{Level, parse_level, verifier_from_config}
use realtime_payments_ledger.Health.Registry.{Check, CheckFunc}
use realtime_payments_ledger.Health.Probes.{startup_checks}
use realtime_payments_ledger.Process.Pool.{PgxPool, Db, new_pool, verify_pool}
use realtime_payments_ledger.Process.RedisClient.{RedisOptions, new_client, verify_client}

-- `errors.Join` of two errors that may be nil
unfoldable pub join : Option Error → Option Error → Option Error
join none none = none
join none (some e) = some e
join (some d) none = some d
join (some d) (some e) = some (Error.join d e)

abbrev pub wrap : Option Error → Option Error
wrap none = none
wrap (some e) = some (Error.wrap e)

-- What the outside makes of the HTTP server: the address it is bound to or the failure to bind, the
-- failure of `Serve` other than `ErrServerClosed`, what `Shutdown` reports within the grace period, and
-- what `Close` reports.
pub record HttpOutside : Type 0 where
  pub listen : Result GoString
  pub serve : Option Error
  pub shutdown : Option Error
  pub close : Option Error

pub record HttpServer : Type 0 where
  pub listener : Option GoString
  pub serve_err : Option Error

abbrev pub new_http_server : HttpServer
new_http_server = record { listener = none; serve_err = none }

abbrev bound : HttpOutside → Result GoString → HttpServer → Result HttpServer
bound o (err e) s = err (Error.wrap e)
bound o (ok a) s = ok (record { listener = some a; serve_err = wrap o.serve })

-- `Start`; `serveErr` is what the serving goroutine writes before it ends.
unfoldable pub start : HttpOutside → HttpServer → Result HttpServer
start o s = bound o o.listen s

-- `Addr`
unfoldable pub addr : HttpServer → GoString
addr s = elim s.listener [ none ↦ [] | some a ↦ a ]

abbrev pub drained : Option Error → Option Error → Option Error
drained none close = none
drained (some e) close = join (some (Error.wrap e)) (wrap close)

-- `Shutdown`: the connections are closed only if they did not drain.
unfoldable pub shutdown : HttpOutside → HttpServer → Option Error
shutdown o s = elim s.listener [
  | none ↦ none
  | some a ↦ join (drained o.shutdown o.close) s.serve_err
]

abbrev served : HttpOutside → Result HttpServer → Option Error
served o (err e) = some e
served o (ok s) = shutdown o s

-- `Run`
unfoldable pub run_http : HttpOutside → Option Error
run_http o = served o (start o new_http_server)

pub data Handler : Type 0 where
  text json : Handler

-- `newLogger`: the format and the level, and the attributes of every record.
unfoldable pub new_logger : App → Handler × Level × List (GoString × GoString)
new_logger a = (
  if str_eq a.log_format (bytes "text") then Handler.text else Handler.json,
  parse_level a.log_level,
  (bytes "service", a.name) ∷ (bytes "env", a.environment) ∷ [],
)

-- What the outside gives a process, for the pings of PostgreSQL and Redis as readiness checks over
-- states `W`. `grpc` is what the gRPC server's `Run` returns with the verifier it is given, and
-- `http_first` whether the HTTP server reports first, where both fail.
pub record Machine (K W : Type 0) : Type 1 where
  pub std : Std
  pub environment : Lookup
  pub libraries : Libraries K
  pub read_file : GoString → Result GoString
  pub pgx : PgxPool
  pub postgres : ℤ → Option Error
  pub redis : RedisOptions → Option Error
  pub postgres_check : CheckFunc W
  pub redis_check : CheckFunc W
  pub grpc : Option (Verifier K) → Option Error
  pub http : HttpOutside
  pub http_first : Bool

-- The warnings that `run` logs.
pub data Warning : Type 0 where
  postgres_unreachable redis_unreachable no_verifier : Warning

abbrev warn : {A : Type 0} → Option A → Warning → List Warning
warn none w = []
warn (some a) w = w ∷ []

-- How the process ends: before its servers run, or after, with what they ran with and the error that
-- `run` returns.
pub data Ended (K W : Type 0) : Type 0 where
  failed : Error → Ended K W
  panicked : Ended K W
  served_with :
      Config → Option (Verifier K) → List (Check W) → List Warning → Option Error → Ended K W

-- The first error of the channel.
abbrev pub first_of : Bool → Option Error → Option Error → Option Error
first_of http_first grpc none = grpc
first_of http_first none (some h) = some h
first_of http_first (some g) (some h) = if http_first then some h else some g

abbrev no_key : {K : Type 0} → Option (Verifier K) → List Warning
no_key none = Warning.no_verifier ∷ []
no_key (some v) = []

module _ {K W : Type 0} (m : Machine K W) where
  abbrev pub serve_both : Option (Verifier K) → Option Error
  serve_both v = first_of m.http_first (wrap (m.grpc v)) (wrap (run_http m.http))

  abbrev pub with_verifier :
      Config → List (Check W) → List Warning → Result (Option (Verifier K)) → Ended K W
  with_verifier cfg checks warnings (err e) = Ended.failed e
  with_verifier cfg checks warnings (ok v) =
      Ended.served_with cfg v checks (warnings ++ no_key v) (serve_both v)

  abbrev pub with_checks : Config → List Warning → Option (List (Check W)) → Ended K W
  with_checks cfg warnings none = Ended.panicked
  with_checks cfg warnings (some checks) =
      with_verifier cfg checks warnings (verifier_from_config m.libraries m.read_file cfg)

  abbrev pub unreachable : Config → Db → List Warning
  unreachable cfg db =
      warn (verify_pool m.postgres db) Warning.postgres_unreachable
      ++ warn (verify_client m.redis (new_client cfg)) Warning.redis_unreachable

  abbrev pub with_pool : Config → Result Db → Ended K W
  with_pool cfg (err e) = Ended.failed e
  with_pool cfg (ok db) =
      with_checks cfg (unreachable cfg db) (startup_checks m.postgres_check m.redis_check)

  abbrev pub with_config : Loaded → Ended K W
  with_config (Loaded.rejected problems) = Ended.failed Error.opaque
  with_config (Loaded.loaded cfg) = with_pool cfg (new_pool m.pgx cfg)

  -- `run`
  unfoldable pub run : Ended K W
  run = with_config (load m.std m.environment)
