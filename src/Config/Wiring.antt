-- ===== src/Config/Wiring.antt =====
-- What the process makes of its configuration: the verifier (`VerifierFromConfig`,
-- internal/auth/loader.go), the size of the connection pool (`New`, internal/database/database.go) and
-- the level of the log (`parseLevel`, cmd/api/main.go). `os.ReadFile` is a parameter.
use realtime_payments_ledger.Prelude.{
  ℕ, ◌-◌, ◌%◌, ◌^◌, ◌<◌, ◌≤◌, ◌≡◌, ◌≢◌, ◌↔◌, refl, ◌⊎◌, inl, inr, Bool, true, false, ◌&&◌, Option,
  none, some, [], ◌∷◌, arith, if◌then◌else◌, Bool-cases, ltb,
}
use realtime_payments_ledger.Prelude.Int.{ℤ, pos, negsuc, pos_part, ◌≤ℤ◌}
use realtime_payments_ledger.Prelude.Text.{GoString, bytes, str_eq}
use realtime_payments_ledger.Prelude.Spaces.{trim_space}
use realtime_payments_ledger.Errors.{Error, Result, ok, err, Result-cases}
use realtime_payments_ledger.Auth.Bearer.{is_empty}
use realtime_payments_ledger.Auth.Verifier.{
  Libraries, Verifier, VerifierConfig, new_verifier, parse_rsa_public_key, parser_options,
}
use realtime_payments_ledger.Config.Types.{Config, Jwt, Postgres, is_production}
use realtime_payments_ledger.Config.Env.{Lookup, Std}
use realtime_payments_ledger.Config.Validate.{validate}
use realtime_payments_ledger.Config.Load.{Loaded, load}
use realtime_payments_ledger.Config.Exact.{load-IsAccepted, validate_exact}
use realtime_payments_ledger.Config.Listeners.{PostgresKept}
use realtime_payments_ledger.Config.Words.{Positive, empty_false}

-- The low 32 bits, read as two's complement: Go's conversion to `int32`.
unfoldable pub wrap32 : ℤ → ℤ
wrap32 (pos n) = let m = n % 2 ^ 32 in if ltb m (2 ^ 31) then pos m else negsuc (2 ^ 32 - 1 - m)
wrap32 (negsuc n) = let m = n % 2 ^ 32 in if ltb m (2 ^ 31) then negsuc m else pos (2 ^ 32 - 1 - m)

-- `poolCfg.MaxConns`
unfoldable pub max_conns : Postgres → ℤ
max_conns p = wrap32 p.max_open_conns

pub data Level : Type 0 where
  level_debug level_info level_warn level_error : Level

-- `parseLevel`
unfoldable pub parse_level : GoString → Level
parse_level s =
    if str_eq s (bytes "debug")
    then Level.level_debug
    else (if str_eq s (bytes "warn")
        then Level.level_warn
        else (if str_eq s (bytes "error") then Level.level_error else Level.level_info))

module _ {K : Type 0} (lib : Libraries K) (read_file : GoString → Result GoString) where
  -- The key: the contents of the file, if one is named.
  abbrev pub key_text : Jwt → Result GoString
  key_text j =
      if is_empty j.public_key_file then ok j.public_key_pem else read_file j.public_key_file

  abbrev pub built : Result (Verifier K) → Result (Option (Verifier K))
  built (err e) = err e
  built (ok v) = ok (some v)

  abbrev pub config_of : Jwt → GoString → VerifierConfig
  config_of j pem = record {
    public_key_pem = pem;
    issuer = j.issuer;
    audience = j.audience;
    leeway = j.leeway;
  }

  abbrev pub verifier_of : Jwt → Result GoString → Result (Option (Verifier K))
  verifier_of j (err e) = err (Error.wrap e)
  verifier_of j (ok pem) =
      if is_empty (trim_space pem) && is_empty j.issuer && is_empty j.audience
      then ok none
      else built (new_verifier lib (config_of j pem))

  -- `VerifierFromConfig`
  unfoldable pub verifier_from_config : Config → Result (Option (Verifier K))
  verifier_from_config c = verifier_of c.jwt (key_text c.jwt)

  -- How `NewVerifier` ends: refused, or with the checks that the configuration asks for.
  new_verifier-cases :
      (cfg : VerifierConfig)
      → ((e : Error) × (new_verifier lib cfg ≡ err e))
        ⊎ ((v : Verifier K) × (new_verifier lib cfg ≡ ok v)
            × (v.parser ≡ parser_options lib cfg)
            × (v.issuer ≡ cfg.issuer)
            × (v.audience ≡ cfg.audience))
  unfolding new_verifier
  new_verifier-cases cfg = elim (Bool-cases (is_empty (trim_space cfg.public_key_pem))) [
    | inl a ↦ inl (Error.opaque, rw a)
    | inr a ↦ elim (Bool-cases (is_empty cfg.issuer)) [
      | inl b ↦ inl (Error.opaque, rw (a, b))
      | inr b ↦ elim (Bool-cases (is_empty cfg.audience)) [
        | inl c ↦ inl (Error.opaque, rw (a, b, c))
        | inr c ↦ elim (Result-cases (parse_rsa_public_key lib cfg.public_key_pem)) [
          | inr (e, d) ↦ inl (e, rw (a, b, c, d))
          | inl (k, d) ↦ inr (
            record {
              parser = parser_options lib cfg;
              key = k;
              issuer = cfg.issuer;
              audience = cfg.audience;
            },
            rw (a, b, c, d),
            refl,
            refl,
            refl,
          )
        ]
      ]
    ]
  ]

  never_unasked : {i : Bool} (p a : Bool) → i ≡ false → p && i && a ≡ false
  never_unasked p a h = ground (arith, h)

  -- From a configuration that `load` gives for production, the process does not come to run without a
  -- verifier: either building it fails, and so does the start, or it checks signatures by RS256, an
  -- expiry, and the configured issuer and audience, neither of them empty, with at most five minutes
  -- of leeway.
  pub verifier_from_config-production :
      (std : Std) (lookup : Lookup) (c : Config)
      → load std lookup ≡ Loaded.loaded c
      → is_production c.app.environment ≡ true
      → ((e : Error) × (verifier_from_config c ≡ err e))
        ⊎ ((v : Verifier K) × (verifier_from_config c ≡ ok (some v))
            × (v.parser.valid_methods ≡ bytes "RS256" ∷ [])
            × (v.parser.expiration_required ≡ true)
            × (v.parser.issuer ≡ c.jwt.issuer)
            × (v.parser.audience ≡ c.jwt.audience)
            × (c.jwt.issuer ≢ [])
            × (c.jwt.audience ≢ [])
            × (v.parser.leeway ≤ℤ pos 300000000000))
  unfolding verifier_from_config
  verifier_from_config-production std lookup c h production =
      let accepted = load-IsAccepted std lookup c h in
      let issued = accepted.jwt.issuer production in
      elim (Result-cases (key_text c.jwt)) [
        | inr (e, k) ↦ inl (Error.wrap e, rw k)
        | inl (pem, k) ↦
            let asked =
              never_unasked (is_empty (trim_space pem)) (is_empty c.jwt.audience)
                (empty_false c.jwt.issuer issued) in
            elim (new_verifier-cases (config_of c.jwt pem)) [
              | inl (e, q) ↦ inl (e, rw (k, asked, q))
              | inr (v, q, parser, _, _) ↦ inr (
                v,
                rw (k, asked, q),
                rw parser,
                rw parser,
                rw parser,
                rw parser,
                issued,
                accepted.jwt.audience production,
                rw parser accepted.jwt.short,
              )
            ]
      ]

wrap32-eq : (a : ℤ) → 1 ≤ pos_part a → (wrap32 a ≡ a) ↔ (pos_part a < 2 ^ 31)
unfolding wrap32
wrap32-eq (pos n) h = ground arith
wrap32-eq (negsuc n) h = absurd (omega (arith, h))

-- The configuration with another pool size.
abbrev pub with_max_open_conns : ℕ → Config → Config
with_max_open_conns n c = record c { postgres = record c.postgres { max_open_conns = pos n } }

positive-le : (a : ℤ) (n : ℕ) → Positive a → a ≤ℤ pos n → 1 ≤ n
positive-le (pos k) n h l = omega (arith, h, l)
positive-le (negsuc k) n h l = absurd (omega (arith, h))

larger-PostgresKept :
    (production : Bool) (p : Postgres) (n : ℕ)
    → p.max_open_conns ≤ℤ pos n
    → PostgresKept production p
    → PostgresKept production (record p { max_open_conns = pos n })
larger-PostgresKept production p n larger kept = record {
  host = kept.host;
  port = kept.port;
  user = kept.user;
  database = kept.database;
  ssl_mode = kept.ssl_mode;
  some_open = positive-le p.max_open_conns n kept.some_open larger;
  idle = kept.idle;
  idle_open = omega (arith, kept.idle_open, larger);
  lifetime = kept.lifetime;
  connects = kept.connects;
  encrypted = kept.encrypted;
}

-- If a configuration has no problem, it has none either with any larger pool size: there is no upper
-- bound. But the pool is created with this size exactly if it is below 2^31.
pub validate-max_conns :
    (c : Config) (n : ℕ)
    → validate c ≡ []
    → c.postgres.max_open_conns ≤ℤ pos n
    → (validate (with_max_open_conns n c) ≡ [])
      × ((max_conns (with_max_open_conns n c).postgres ≡ pos n) ↔ (n < 2 ^ 31))
unfolding max_conns
validate-max_conns c n h larger =
    let a = (validate_exact c).0 h in
    (
      (validate_exact (with_max_open_conns n c)).1 (record {
        app = a.app;
        http = a.http;
        postgres = larger-PostgresKept _ c.postgres n larger a.postgres;
        grpc = a.grpc;
        jwt = a.jwt;
        redis = a.redis;
        idempotency = a.idempotency;
        kafka = a.kafka;
      }),
      wrap32-eq (pos n) (positive-le c.postgres.max_open_conns n a.postgres.some_open larger),
    )
