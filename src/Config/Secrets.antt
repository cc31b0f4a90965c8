-- ===== src/Config/Secrets.antt =====
-- internal/config/config.go: `Redacted`, and the connection string with and without the password.
use realtime_payments_ledger.Prelude.{
  ◌≡◌, refl, Bool, true, false, [], ◌∷◌, ◌++◌, if◌then◌else◌, ◌==◌,
}
use realtime_payments_ledger.Prelude.Text.{GoString, bytes}
use realtime_payments_ledger.Auth.Bearer.{is_empty}
use realtime_payments_ledger.Idempotency.Fingerprint.{format_int}
use realtime_payments_ledger.Config.Types.{Config, Jwt, Postgres, Redis}

abbrev pub redacted : GoString
redacted = bytes "[REDACTED]"

abbrev mask : GoString → GoString
mask secret = if is_empty secret then secret else redacted

abbrev masked_postgres : Postgres → Postgres
masked_postgres p = record p { password = mask p.password }

abbrev masked_redis : Redis → Redis
masked_redis r = record r { password = mask r.password }

abbrev masked_jwt : Jwt → Jwt
masked_jwt j = record j { public_key_pem = mask j.public_key_pem }

-- `Redacted`
unfoldable pub redact : Config → Config
redact c = record c {
  postgres = masked_postgres c.postgres;
  redis = masked_redis c.redis;
  jwt = masked_jwt c.jwt;
}

-- `net.JoinHostPort`: a host with a colon stands in brackets.
unfoldable pub has_colon : GoString → Bool
has_colon [] = false
has_colon (a ∷ s) = let rest = has_colon s in if a == b':' then true else rest

unfoldable pub join_host_port : GoString → GoString → GoString
join_host_port host port =
    if has_colon host then bytes "[" ++ host ++ bytes "]:" ++ port else host ++ bytes ":" ++ port

-- `dsn`
unfoldable pub dsn : Postgres → GoString → GoString
dsn p password =
    bytes "postgres://"
    ++ p.user
    ++ bytes ":"
    ++ password
    ++ bytes "@"
    ++ join_host_port p.host (format_int p.port)
    ++ bytes "/"
    ++ p.database
    ++ bytes "?sslmode="
    ++ p.ssl_mode

-- `RedactedDSN`
unfoldable pub redacted_dsn : Postgres → GoString
redacted_dsn p = dsn p redacted

-- The configuration with other secrets.
abbrev pub with_secrets : GoString → GoString → GoString → Config → Config
with_secrets database_password redis_password key c = record c {
  postgres = record c.postgres { password = database_password };
  redis = record c.redis { password = redis_password };
  jwt = record c.jwt { public_key_pem = key };
}

masked : (s t : GoString) → is_empty s ≡ is_empty t → mask s ≡ mask t
masked [] [] h = refl
masked [] (b ∷ t) h = absurd (cc)
masked (a ∷ s) [] h = absurd (cc)
masked (a ∷ s) (b ∷ t) h = refl

-- Two configurations that differ in the password of PostgreSQL, the password of Redis and the key, each
-- of which is set in both or in neither, have the same redacted form and the same redacted connection
-- string. The redacted form differs from the configuration in these three fields only.
pub redact-secrets :
    (c : Config) (a b a' b' k k' : GoString)
    → is_empty a ≡ is_empty a'
    → is_empty b ≡ is_empty b'
    → is_empty k ≡ is_empty k'
    → (redact (with_secrets a b k c) ≡ redact (with_secrets a' b' k' c))
      × (redacted_dsn (with_secrets a b k c).postgres
          ≡ redacted_dsn (with_secrets a' b' k' c).postgres)
      × ((x : GoString) × (y : GoString) × (z : GoString) × (redact (with_secrets a b k c)
            ≡ with_secrets x y z c))
unfolding redact redacted_dsn dsn
redact-secrets c a b a' b' k k' ha hb hk =
    (rw (masked a a' ha, masked b b' hb, masked k k' hk), refl, (mask a, mask b, mask k, refl))
