-- ===== src/Tests/Process.antt =====
-- A production process with a key, whose PostgreSQL does not answer at the start.
use realtime_payments_ledger.Prelude.{
  ℕ, ◌≡◌, ◌≢◌, ◌↔◌, refl, ◌⊎◌, true, Option, none, some, List, [], ◌∷◌,
}
use realtime_payments_ledger.Prelude.Int.{pos, ◌≤ℤ◌}
use realtime_payments_ledger.Prelude.Text.{bytes, str_eq}
use realtime_payments_ledger.Prelude.Spaces.{trim_space, trim_from, space_width, space_width_back}
use realtime_payments_ledger.Errors.{Error, ok, err}
use realtime_payments_ledger.Auth.Verifier.{Verifier, new_verifier, parse_rsa_public_key}
use realtime_payments_ledger.Config.Types.{Config, is_production}
use realtime_payments_ledger.Config.Env.{str, int_val, bool_val, duration, list, atoi, parse_bool}
use realtime_payments_ledger.Config.Validate
use realtime_payments_ledger.Config.Validate.{broken, all_broken}
use realtime_payments_ledger.Config.Load.{
  load, read_config, load_app, load_http, load_grpc, load_jwt, load_postgres, load_redis,
  load_idempotency, load_kafka,
}
use realtime_payments_ledger.Config.Wiring.{verifier_from_config}
use realtime_payments_ledger.Health.Registry.{Check, Ending, register, put_check}
use realtime_payments_ledger.Health.Probes.{ping_checks, startup_checks}
use realtime_payments_ledger.Process.Pool.{Db, new_pool, verify_pool}
use realtime_payments_ledger.Process.RedisClient.{verify_client}
use realtime_payments_ledger.Process.Start.{Machine, Warning, Ended, serve_both, run}
use realtime_payments_ledger.Process.Outcome.{
  without_warnings, run-reachability, Drained, run-nil, run-production,
}
use realtime_payments_ledger.Tests.Auth.{libraries}
use realtime_payments_ledger.Tests.Config.{
  std, environment, no_file, production, production-loaded, in_production,
}

abbrev machine : Machine ℕ ℕ
machine = record {
  std = std;
  environment = environment;
  libraries = libraries;
  read_file = no_file;
  pgx = record { parse_config = λ dsn. none; new_with_config = λ c. none };
  postgres = λ t. some Error.opaque;
  redis = λ o. none;
  postgres_check = λ n. (Ending.returned none, n);
  redis_check = λ n. (Ending.returned none, n);
  grpc = λ v. none;
  http = record {
    listen = ok (bytes "127.0.0.1:8080");
    serve = none;
    shutdown = some Error.opaque;
    close = none;
  };
  http_first = true;
}

run-reachability_example :
    without_warnings (run (record machine { postgres = λ t. none; redis = λ o. some Error.opaque }))
    ≡ without_warnings (run machine)
run-reachability_example = run-reachability machine (λ t. none) (λ o. some Error.opaque)

created : (db : Db) × (new_pool machine.pgx production ≡ ok db)
unfolding new_pool
created = (_, refl)

run-production_example :
    ((e : Error) × (verifier_from_config machine.libraries machine.read_file production ≡ err e)
      × (run machine ≡ Ended.failed e))
    ⊎ ((v : Verifier ℕ) × (w : List Warning) × (run machine
          ≡ Ended.served_with production
              (some v)
              (ping_checks machine.postgres_check machine.redis_check)
              w
              (serve_both machine (some v)))
        × (v.parser.valid_methods ≡ bytes "RS256" ∷ [])
        × (v.parser.expiration_required ≡ true)
        × (v.parser.issuer ≡ production.jwt.issuer)
        × (v.parser.audience ≡ production.jwt.audience)
        × (production.jwt.issuer ≢ [])
        × (production.jwt.audience ≢ [])
        × (v.parser.leeway ≤ℤ pos 300000000000))
run-production_example =
    run-production machine production created.0 production-loaded in_production created.1

served :
    (c : Config) × (v : Option (Verifier ℕ)) × (w : List Warning) × (checks : List (Check ℕ))
    × (e : Option Error) × (run machine ≡ Ended.served_with c v checks w e)
unfolding run load read_config load_app load_http load_grpc load_jwt load_postgres load_redis
    load_idempotency load_kafka str int_val bool_val duration list atoi parse_bool Validate.validate
    all_broken broken is_production str_eq trim_space trim_from space_width space_width_back
    new_pool verify_pool verify_client startup_checks register put_check verifier_from_config
    new_verifier parse_rsa_public_key
served = (_, _, _, _, _, refl)

run-nil_example : (served.4 ≡ none) ↔ ((machine.grpc served.1 ≡ none) × Drained machine.http)
run-nil_example = run-nil machine served.1 served.0 served.2 served.3 served.4 served.5
