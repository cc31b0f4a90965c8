-- ===== src/Tests/Config.antt =====
-- Configurations of a production process.
use realtime_payments_ledger.Prelude.{
  ◌^◌, ◌<◌, ◌≡◌, ◌≢◌, ◌↔◌, refl, arith, ◌⊎◌, true, Option, none, some, List, [], ◌∷◌, ◌++◌,
  if◌then◌else◌,
}
use realtime_payments_ledger.Prelude.Int.{pos, ◌≤ℤ◌}
use realtime_payments_ledger.Prelude.Text.{GoString, bytes, str_eq}
use realtime_payments_ledger.Prelude.Spaces.{trim_space, trim_from, space_width, space_width_back}
use realtime_payments_ledger.Errors.{Error, Result, err}
use realtime_payments_ledger.Config.Types.{Config, is_production}
use realtime_payments_ledger.Config.Env.{
  Lookup, Std, Problem, str, int_val, bool_val, duration, list, atoi, parse_bool,
}
use realtime_payments_ledger.Config.Validate.{validate, broken, all_broken}
use realtime_payments_ledger.Config.Load.{
  Loaded, load, read_config, load_app, load_http, load_grpc, load_jwt, load_postgres, load_redis,
  load_idempotency, load_kafka,
}
use realtime_payments_ledger.Config.Exact.{IsAccepted, load_exact, validate_exact, load-IsAccepted}
use realtime_payments_ledger.Config.Secrets.{redact, redacted_dsn, with_secrets, redact-secrets}
use realtime_payments_ledger.Config.Wiring.{max_conns, with_max_open_conns, validate-max_conns}

abbrev pub std : Std
std = record { to_lower = λ s. s; parse_duration = λ s. none }

-- The variables that are set, and the pool size.
abbrev pub variables : List (GoString × GoString)
variables =
    (bytes "APP_ENV", bytes "production")
    ∷ (bytes "POSTGRES_SSLMODE", bytes "require")
    ∷ (bytes "POSTGRES_MAX_OPEN_CONNS", bytes "4294967297")
    ∷ (bytes "JWT_PUBLIC_KEY", bytes "key")
    ∷ (bytes "JWT_ISSUER", bytes "issuer")
    ∷ (bytes "JWT_AUDIENCE", bytes "ledger")
    ∷ []

abbrev pub find_variable : GoString → List (GoString × GoString) → Option GoString
find_variable key [] = none
find_variable key ((k, v) ∷ rest) =
    let found = find_variable key rest in if str_eq k key then some v else found

abbrev pub environment : Lookup
environment key = find_variable key variables

load_exact_example :
    ((load std environment ≡ Loaded.loaded (read_config std environment).0)
      × ((read_config std environment).1 ≡ [])
      × IsAccepted (read_config std environment).0)
    ⊎ ((problems : List Problem) × (load std environment ≡ Loaded.rejected problems)
        × (problems ≡ (read_config std environment).1 ++ validate (read_config std environment).0)
        × (problems ≢ []))
load_exact_example = load_exact std environment

abbrev pub production : Config
production = (read_config std environment).0

pub production-loaded : load std environment ≡ Loaded.loaded production
unfolding load read_config load_app load_http load_grpc load_jwt load_postgres load_redis
    load_idempotency load_kafka str int_val bool_val duration list atoi parse_bool validate
    all_broken broken is_production str_eq trim_space trim_from space_width space_width_back
production-loaded = refl

pub in_production : is_production production.app.environment ≡ true
unfolding is_production read_config load_app str str_eq
in_production = refl

-- A key in a file that cannot be read is never asked for here.
abbrev pub no_file : GoString → Result GoString
no_file name = err Error.opaque

production-valid : validate production ≡ []
production-valid =
    (validate_exact production).1 (load-IsAccepted std environment production production-loaded)

at_least : production.postgres.max_open_conns ≤ℤ pos (2 ^ 33)
unfolding read_config load_postgres int_val str_eq atoi
at_least = omega arith

validate-max_conns_example :
    (validate (with_max_open_conns (2 ^ 33) production) ≡ [])
    × ((max_conns (with_max_open_conns (2 ^ 33) production).postgres ≡ pos (2 ^ 33))
        ↔ (2 ^ 33 < 2 ^ 31))
validate-max_conns_example = validate-max_conns production (2 ^ 33) production-valid at_least

redact-secrets_example :
    (redact (with_secrets (bytes "a") [] (bytes "k") production)
      ≡ redact (with_secrets (bytes "bb") [] (bytes "kk") production))
    × (redacted_dsn (with_secrets (bytes "a") [] (bytes "k") production).postgres
        ≡ redacted_dsn (with_secrets (bytes "bb") [] (bytes "kk") production).postgres)
    × ((x : GoString) × (y : GoString) × (z : GoString) × (redact
            (with_secrets (bytes "a") [] (bytes "k") production)
          ≡ with_secrets x y z production))
redact-secrets_example =
    redact-secrets production (bytes "a") [] (bytes "bb") [] (bytes "k") (bytes "kk") refl refl refl
