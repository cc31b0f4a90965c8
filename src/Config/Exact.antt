-- ===== src/Config/Exact.antt =====
-- What `load` (internal/config/config.go) accepts.
use realtime_payments_ledger.Prelude.{
  ◌≡◌, ◌≢◌, ◌↔◌, refl, sym, subst, ◌∙◌, ◌⊎◌, inl, inr, true, false, List, [], ◌∷◌, ◌++◌, All,
}
use realtime_payments_ledger.Config.Types.{Config, is_production}
use realtime_payments_ledger.Config.Env.{Lookup, Std, Problem}
use realtime_payments_ledger.Config.Validate.{Rule, rules, broken, all_broken, validate}
use realtime_payments_ledger.Config.Load.{Loaded, read_config, load, no_problems}
use realtime_payments_ledger.Config.Words.{Kept}
use realtime_payments_ledger.Config.Listeners.{
  AppKept, app-AppKept, app_rules-Kept, HttpKept, http-HttpKept, http_rules-Kept, PostgresKept,
  postgres-PostgresKept, postgres_rules-Kept, GrpcKept, grpc-GrpcKept, grpc_rules-Kept,
}
use realtime_payments_ledger.Config.Clients.{
  JwtKept, jwt-JwtKept, jwt_rules-Kept, RedisKept, redis-RedisKept, redis_rules-Kept,
  IdempotencyKept, idempotency-IdempotencyKept, idempotency_rules-Kept, KafkaKept, kafka-KafkaKept,
  kafka_rules-Kept,
}

-- What the process may rely on: the ranges of all numbers, the sets of all words, and in production
-- a TLS mode, a key, an issuer and an audience for tokens, and no reflection.
pub record IsAccepted (c : Config) : Type 0 where
  pub app : AppKept c.app
  pub http : HttpKept c.http
  pub postgres : PostgresKept (is_production c.app.environment) c.postgres
  pub grpc : GrpcKept c.http c.grpc
  pub jwt : JwtKept (is_production c.app.environment) c.grpc c.jwt
  pub redis : RedisKept c.redis
  pub idempotency : IdempotencyKept c.idempotency
  pub kafka : KafkaKept c.kafka

broken-Kept : (l : List Rule) → broken l ≡ [] → Kept l
unfolding broken
broken-Kept [] h = tt
broken-Kept ((true, v) ∷ l) h = absurd (cc)
broken-Kept ((false, v) ∷ l) h = (refl, broken-Kept l h)

kept-broken : (l : List Rule) → Kept l → broken l ≡ []
unfolding broken
kept-broken [] h = refl
kept-broken ((bad, v) ∷ l) h = rw h.0 (kept-broken l h.1)

append-none : {A : Type 0} (xs ys : List A) → xs ++ ys ≡ [] → (xs ≡ []) × (ys ≡ [])
append-none [] ys h = (refl, h)
append-none (x ∷ xs) ys h = absurd (cc)

all_broken-Kept : (l : List (List Rule)) → all_broken l ≡ [] → All Kept l
unfolding all_broken
all_broken-Kept [] h = tt
all_broken-Kept (part ∷ l) h =
    let (here, after) = append-none (broken part) (all_broken l) h in
    (broken-Kept part here, all_broken-Kept l after)

kept-all_broken : (l : List (List Rule)) → All Kept l → all_broken l ≡ []
unfolding all_broken
kept-all_broken [] h = refl
kept-all_broken (part ∷ l) h = rw (kept-broken part h.0, kept-all_broken l h.1)

kept-IsAccepted : (c : Config) → All Kept (rules c) → IsAccepted c
kept-IsAccepted c h =
    let production = is_production c.app.environment in
    record {
      app = app-AppKept c.app h.0;
      http = http-HttpKept c.http h.1.0;
      postgres = postgres-PostgresKept production c.postgres h.1.1.0;
      grpc = grpc-GrpcKept c.http c.grpc h.1.1.1.0;
      jwt = jwt-JwtKept production c.grpc c.jwt h.1.1.1.1.0;
      redis = redis-RedisKept c.redis h.1.1.1.1.1.0;
      idempotency = idempotency-IdempotencyKept c.idempotency h.1.1.1.1.1.1.0;
      kafka = kafka-KafkaKept c.kafka h.1.1.1.1.1.1.1.0;
    }

accepted-Kept : (c : Config) → IsAccepted c → All Kept (rules c)
accepted-Kept c a = (
  app_rules-Kept c.app a.app,
  (
    http_rules-Kept c.http a.http,
    (
      postgres_rules-Kept (is_production c.app.environment) c.postgres a.postgres,
      (
        grpc_rules-Kept c.http c.grpc a.grpc,
        (
          jwt_rules-Kept (is_production c.app.environment) c.grpc c.jwt a.jwt,
          (
            redis_rules-Kept c.redis a.redis,
            (
              idempotency_rules-Kept c.idempotency a.idempotency,
              (kafka_rules-Kept c.kafka a.kafka, tt),
            ),
          ),
        ),
      ),
    ),
  ),
)

-- `validate` has no complaint about a configuration exactly if it is one that the process may rely on.
pub validate_exact : (c : Config) → (validate c ≡ []) ↔ IsAccepted c
unfolding validate
validate_exact c = (
  λ h. kept-IsAccepted c (all_broken-Kept (rules c) h),
  λ a. kept-all_broken (rules c) (accepted-Kept c a),
)

-- Loading from any environment ends in one of two ways. It gives the configuration that was read, and
-- then no variable was malformed and the configuration is one that the process may rely on. Or it
-- gives none, and reports every malformed variable and then every broken rule, and there is one.
pub load_exact :
    (std : Std) (lookup : Lookup)
    → ((load std lookup ≡ Loaded.loaded (read_config std lookup).0)
        × ((read_config std lookup).1 ≡ [])
        × IsAccepted (read_config std lookup).0)
      ⊎ ((problems : List Problem) × (load std lookup ≡ Loaded.rejected problems)
          × (problems ≡ (read_config std lookup).1 ++ validate (read_config std lookup).0)
          × (problems ≢ []))
unfolding load
load_exact std lookup =
    by_problems (read_config std lookup).0 (read_config std lookup).1
      ((read_config std lookup).1 ++ validate (read_config std lookup).0) refl
  where
    by_problems :
        (cfg : Config) (errs all : List Problem)
        → all ≡ errs ++ validate cfg
        → ((no_problems cfg all ≡ Loaded.loaded cfg) × (errs ≡ []) × IsAccepted cfg)
          ⊎ ((problems : List Problem) × (no_problems cfg all ≡ Loaded.rejected problems)
              × (problems ≡ errs ++ validate cfg)
              × (problems ≢ []))
    by_problems cfg errs [] h =
        let (none, valid) = append-none errs (validate cfg) (sym h) in
        inl (refl, none, (validate_exact cfg).0 valid)
    by_problems cfg errs (p ∷ rest) h = inr (p ∷ rest, refl, h, λ e. absurd (cc))

loaded_same : {c d : Config} → Loaded.loaded c ≡ Loaded.loaded d → c ≡ d
loaded_same h = cc

-- A configuration that `load` gives is one that the process may rely on.
pub load-IsAccepted :
    (std : Std) (lookup : Lookup) (c : Config) → load std lookup ≡ Loaded.loaded c → IsAccepted c
load-IsAccepted std lookup c h = elim (load_exact std lookup) [
  | inl (e, _, accepted) ↦ subst IsAccepted (loaded_same (sym e ∙ h)) accepted
  | inr (problems, e, _, _) ↦ absurd (cc)
]
