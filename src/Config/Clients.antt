-- ===== src/Config/Clients.antt =====
-- What `validate` (internal/config/config.go) accepts for tokens, Redis, idempotency and Kafka.
use realtime_payments_ledger.Prelude.{◌≡◌, ◌≢◌, ◌⊎◌, Bool, true, false, [], arith}
use realtime_payments_ledger.Prelude.Int.{pos, ◌≤ℤ◌}
use realtime_payments_ledger.Config.Types.{GrpcServer, Jwt, Redis, IdempotencyTimes, Kafka}
use realtime_payments_ledger.Config.Validate.{
  jwt_rules, redis_rules, idempotency_rules, kafka_rules,
}
use realtime_payments_ledger.Config.Words.{
  Positive, NonNegative, Kept, nonempty, empty_false, some_brokers, brokers_test,
}

pub record JwtKept (production : Bool) (g : GrpcServer) (j : Jwt) : Type 0 where
  pub leeway : NonNegative j.leeway
  pub short : j.leeway ≤ℤ pos 300000000000
  pub one_key : (j.public_key_pem ≡ []) ⊎ (j.public_key_file ≡ [])
  pub issuer : production ≡ true → j.issuer ≢ []
  pub audience : production ≡ true → j.audience ≢ []
  pub key : production ≡ true → (j.public_key_pem ≢ []) ⊎ (j.public_key_file ≢ [])
  pub hidden : production ≡ true → g.reflection ≡ false

pub jwt-JwtKept :
    (production : Bool) (g : GrpcServer) (j : Jwt)
    → Kept (jwt_rules production g j)
    → JwtKept production g j
jwt-JwtKept production g j kept = record {
  leeway = ground (arith, kept.0);
  short = ground (arith, kept.1.0);
  one_key = ground (arith, kept.1.1.0);
  issuer = ground (arith, kept.1.1.1.0);
  audience = ground (arith, kept.1.1.1.1.0);
  key = ground (arith, kept.1.1.1.1.1.0);
  hidden = ground (arith, kept.1.1.1.1.1.1.0);
}

pub jwt_rules-Kept :
    (production : Bool) (g : GrpcServer) (j : Jwt)
    → JwtKept production g j
    → Kept (jwt_rules production g j)
jwt_rules-Kept production g j ok = (
  ground (arith, ok.leeway),
  (
    ground (arith, ok.short),
    (
      ground (arith, ok.one_key),
      (
        ground (arith, ok.issuer),
        (ground (arith, ok.audience), (ground (arith, ok.key), (ground (arith, ok.hidden), tt))),
      ),
    ),
  ),
)

pub record RedisKept (r : Redis) : Type 0 where
  pub addr : r.addr ≢ []
  pub db : NonNegative r.db
  pub dials : Positive r.dial_timeout
  pub commands : Positive r.command_timeout

pub redis-RedisKept : (r : Redis) → Kept (redis_rules r) → RedisKept r
redis-RedisKept r kept = record {
  addr = nonempty _ kept.0;
  db = ground (arith, kept.1.0);
  dials = ground (arith, kept.1.1.0);
  commands = ground (arith, kept.1.1.1.0);
}

pub redis_rules-Kept : (r : Redis) → RedisKept r → Kept (redis_rules r)
redis_rules-Kept r ok = (
  empty_false _ ok.addr,
  (ground (arith, ok.db), (ground (arith, ok.dials), (ground (arith, ok.commands), tt))),
)

pub record IdempotencyKept (i : IdempotencyTimes) : Type 0 where
  pub ttl : Positive i.ttl
  pub processing : Positive i.processing_ttl
  pub within : i.processing_ttl ≤ℤ i.ttl

pub idempotency-IdempotencyKept :
    (i : IdempotencyTimes) → Kept (idempotency_rules i) → IdempotencyKept i
idempotency-IdempotencyKept i kept = record {
  ttl = ground (arith, kept.0);
  processing = ground (arith, kept.1.0);
  within = ground (arith, kept.1.1.0);
}

pub idempotency_rules-Kept : (i : IdempotencyTimes) → IdempotencyKept i → Kept (idempotency_rules i)
idempotency_rules-Kept i ok =
    (ground (arith, ok.ttl), (ground (arith, ok.processing), (ground (arith, ok.within), tt)))

pub record KafkaKept (k : Kafka) : Type 0 where
  pub brokers : k.brokers ≢ []
  pub topic : k.audit_topic ≢ []

pub kafka-KafkaKept : (k : Kafka) → Kept (kafka_rules k) → KafkaKept k
kafka-KafkaKept k kept = record {
  brokers = some_brokers k.brokers kept.0;
  topic = nonempty _ kept.1.0;
}

pub kafka_rules-Kept : (k : Kafka) → KafkaKept k → Kept (kafka_rules k)
kafka_rules-Kept k ok = (brokers_test k.brokers ok.brokers, (empty_false _ ok.topic, tt))
