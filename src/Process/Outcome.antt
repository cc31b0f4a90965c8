-- ===== src/Process/Outcome.antt =====
-- How the process of cmd/api starts and ends.
use realtime_payments_ledger.Prelude.{
  ◌≡◌, ◌≢◌, ◌↔◌, refl, ◌⊎◌, inl, inr, Bool, true, false, Option, none, some, List, [], ◌∷◌, ◌++◌,
  ◌∙◌, sym,
}
use realtime_payments_ledger.Prelude.Int.{ℤ, pos, ◌≤ℤ◌}
use realtime_payments_ledger.Prelude.Text.{GoString, bytes, str_eq}
use realtime_payments_ledger.Errors.{Error, Result, ok, err, Result-cases}
use realtime_payments_ledger.Auth.Verifier.{Verifier}
use realtime_payments_ledger.Config.Types.{Config, is_production}
use realtime_payments_ledger.Config.Load.{Loaded, load}
use realtime_payments_ledger.Config.Wiring.{verifier_from_config, verifier_from_config-production}
use realtime_payments_ledger.Health.Registry.{Check, register, put_check}
use realtime_payments_ledger.Health.Probes.{startup_checks, ping_checks}
use realtime_payments_ledger.Process.Pool.{Db, new_pool}
use realtime_payments_ledger.Process.RedisClient.{RedisOptions}
use realtime_payments_ledger.Process.Start.{
  join, wrap, HttpOutside, start, shutdown, run_http, Machine, Warning, Ended, first_of, serve_both,
  drained, with_verifier, unreachable, with_pool, with_config, run,
}

-- An end without the warnings.
abbrev pub without_warnings : {K W : Type 0} → Ended K W → Ended K W
without_warnings (Ended.failed e) = Ended.failed e
without_warnings Ended.panicked = Ended.panicked
without_warnings (Ended.served_with c v checks w e) = Ended.served_with c v checks [] e

ping_checks_lem :
    {K W : Type 0} (m : Machine K W)
    → startup_checks m.postgres_check m.redis_check
      ≡ some (ping_checks m.postgres_check m.redis_check)
unfolding startup_checks register put_check str_eq
ping_checks_lem m = refl

module _ {K W : Type 0} (m : Machine K W) (postgres : ℤ → Option Error)
    (redis : RedisOptions → Option Error) where
  abbrev elsewhere : Machine K W
  elsewhere = record m { postgres = postgres; redis = redis }

  same_pool :
      (c : Config) (p : Result Db)
      → without_warnings (with_pool elsewhere c p) ≡ without_warnings (with_pool m c p)
  same_pool c (err e) = refl
  same_pool c (ok db) =
      rw (ping_checks_lem m) (same_verifier (verifier_from_config m.libraries m.read_file c) _ _)
    where
      same_verifier :
          (v : Result (Option (Verifier K))) (w w' : List Warning)
          → without_warnings
              (with_verifier elsewhere c (ping_checks m.postgres_check m.redis_check) w v)
            ≡ without_warnings (with_verifier m c (ping_checks m.postgres_check m.redis_check) w' v)
      same_verifier (err e) w w' = refl
      same_verifier (ok v) w w' = refl

  -- Whether PostgreSQL and Redis answer at the start changes nothing but the warnings: not whether the
  -- process comes to serve, nor what it serves with, nor the error it ends with.
  pub run-reachability : without_warnings (run elsewhere) ≡ without_warnings (run m)
  unfolding run
  run-reachability = by_config (load m.std m.environment)
    where
      by_config :
          (l : Loaded)
          → without_warnings (with_config elsewhere l) ≡ without_warnings (with_config m l)
      by_config (Loaded.rejected problems) = refl
      by_config (Loaded.loaded c) = same_pool c (new_pool m.pgx c)

module _ {K W : Type 0} (m : Machine K W) where
  -- The process fails, or comes to serve with what both servers return.
  abbrev Ends : Ended K W → Type 0
  Ends x =
      ((e : Error) × (x ≡ Ended.failed e))
      ⊎ ((c : Config) × (v : Option (Verifier K)) × (w : List Warning) × (checks : List (Check W))
          × (x ≡ Ended.served_with c v checks w (serve_both m v)))

  ended : Ends (run m)
  unfolding run
  ended = by_config (load m.std m.environment)
    where
      by_verifier :
          (c : Config) (w : List Warning) (checks : List (Check W))
          (r : Result (Option (Verifier K)))
          → Ends (with_verifier m c checks w r)
      by_verifier c w checks (err e) = inl (e, refl)
      by_verifier c w checks (ok v) = inr (c, v, _, _, refl)

      by_pool : (c : Config) (r : Result Db) → Ends (with_pool m c r)
      by_pool c (err e) = inl (e, refl)
      by_pool c (ok db) = rw (ping_checks_lem m) (
          by_verifier c (unreachable m c db) (ping_checks m.postgres_check m.redis_check)
            (verifier_from_config m.libraries m.read_file c))

      by_config : (l : Loaded) → Ends (with_config m l)
      by_config (Loaded.rejected problems) = inl (Error.opaque, refl)
      by_config (Loaded.loaded c) = by_pool c (new_pool m.pgx c)

first_of-nil :
    (b : Bool) (g h : Option Error)
    → (first_of b (wrap g) (wrap h) ≡ none) ↔ ((g ≡ none) × (h ≡ none))
first_of-nil b none none = ((λ q. (refl, refl)), (λ q. refl))
first_of-nil b none (some h) = ((λ q. absurd (cc)), (λ q. absurd (cc)))
first_of-nil b (some g) none = ((λ q. absurd (cc)), (λ q. absurd (cc)))
first_of-nil true (some g) (some h) = ((λ q. absurd (cc)), (λ q. absurd (cc)))
first_of-nil false (some g) (some h) = ((λ q. absurd (cc)), (λ q. absurd (cc)))

join-nil : (d e : Option Error) → (join d e ≡ none) ↔ ((d ≡ none) × (e ≡ none))
unfolding join
join-nil none none = ((λ q. (refl, refl)), (λ q. refl))
join-nil none (some e) = ((λ q. absurd (cc)), (λ q. absurd (cc)))
join-nil (some d) none = ((λ q. absurd (cc)), (λ q. absurd (cc)))
join-nil (some d) (some e) = ((λ q. absurd (cc)), (λ q. absurd (cc)))

drained-nil : (d c : Option Error) → (drained d c ≡ none) ↔ (d ≡ none)
unfolding join
drained-nil none c = ((λ q. refl), (λ q. refl))
drained-nil (some e) none = ((λ q. absurd (cc)), (λ q. absurd (cc)))
drained-nil (some e) (some f) = ((λ q. absurd (cc)), (λ q. absurd (cc)))

wrap-nil : (d : Option Error) → (wrap d ≡ none) ↔ (d ≡ none)
wrap-nil none = ((λ q. refl), (λ q. refl))
wrap-nil (some e) = ((λ q. absurd (cc)), (λ q. absurd (cc)))

-- The HTTP server was bound, drained within its grace period and stopped serving for no other reason.
abbrev pub Drained : HttpOutside → Type 0
Drained o = ((a : GoString) × (o.listen ≡ ok a)) × (o.shutdown ≡ none) × (o.serve ≡ none)

run_http-nil : (o : HttpOutside) → (run_http o ≡ none) ↔ Drained o
unfolding run_http start shutdown
run_http-nil o = elim (Result-cases o.listen) [
  | inr (e, q) ↦ ((λ h. absurd (cc (rw q at h))), (λ (l, x, y). absurd (cc (l.1))))
  | inl (a, q) ↦
      let (to, from) = join-nil (drained o.shutdown o.close) (wrap o.serve) in
      (
        (λ h.
            let (x, y) = to (rw q at h) in
            ((a, q), (drained-nil o.shutdown o.close).0 x, (wrap-nil o.serve).0 y)),
        (λ (l, x, y). rw q (from ((drained-nil o.shutdown o.close).1 x, (wrap-nil o.serve).1 y))),
      )
]

ended-serve_both :
    {K W : Type 0} (m : Machine K W) (v : Option (Verifier K)) (c : Config) (w : List Warning)
    (checks : List (Check W)) (e : Option Error)
    → run m ≡ Ended.served_with c v checks w e
    → e ≡ serve_both m v
unfolding run
ended-serve_both m v c w checks e h = elim (ended m) [
  | inl (x, q) ↦ absurd (cc)
  | inr (c', v', w', checks', q) ↦ cc
]

-- A process that has come to serve returns nil exactly if the gRPC server returned nil, and the HTTP
-- server was bound, drained within its grace period and stopped serving for no other reason.
pub run-nil :
    {K W : Type 0} (m : Machine K W) (v : Option (Verifier K)) (c : Config) (w : List Warning)
    (checks : List (Check W)) (e : Option Error)
    → run m ≡ Ended.served_with c v checks w e
    → (e ≡ none) ↔ ((m.grpc v ≡ none) × Drained m.http)
run-nil m v c w checks e h =
    let (to, from) = first_of-nil m.http_first (m.grpc v) (run_http m.http) in
    let (to', from') = run_http-nil m.http in
    let same = ended-serve_both m v c w checks e h in
    ((λ q. let (x, y) = to (sym same ∙ q) in (x, to' y)), (λ (x, y). same ∙ from (x, from' y)))

-- A process whose configuration loads, in production, and whose connection pool can be created: it either
-- stops with the error of building its verifier, or comes to serve with the two readiness checks and a
-- verifier that checks signatures by RS256, an expiry, and the configured issuer and audience, neither of
-- them empty, with at most five minutes of leeway.
pub run-production :
    {K W : Type 0} (m : Machine K W) (c : Config) (db : Db)
    → load m.std m.environment ≡ Loaded.loaded c
    → is_production c.app.environment ≡ true
    → new_pool m.pgx c ≡ ok db
    → ((e : Error) × (verifier_from_config m.libraries m.read_file c ≡ err e)
        × (run m ≡ Ended.failed e))
      ⊎ ((v : Verifier K) × (w : List Warning) × (run m
            ≡ Ended.served_with c
                (some v)
                (ping_checks m.postgres_check m.redis_check)
                w
                (serve_both m (some v)))
          × (v.parser.valid_methods ≡ bytes "RS256" ∷ [])
          × (v.parser.expiration_required ≡ true)
          × (v.parser.issuer ≡ c.jwt.issuer)
          × (v.parser.audience ≡ c.jwt.audience)
          × (c.jwt.issuer ≢ [])
          × (c.jwt.audience ≢ [])
          × (v.parser.leeway ≤ℤ pos 300000000000))
unfolding run
run-production m c db loaded production pool =
    elim (verifier_from_config-production m.libraries m.read_file m.std m.environment c loaded
      production) [
        | inl (e, q) ↦ inl (e, q, rw (loaded, pool, ping_checks_lem m, q) refl)
        | inr (v, q, a, b, d, f, g, h, i) ↦ inr (
          v,
          unreachable m c db ++ [],
          rw (loaded, pool, ping_checks_lem m, q) refl,
          a,
          b,
          d,
          f,
          g,
          h,
          i,
        )
      ]
