-- ===== src/Lib.antt =====
-- realtime-payments-ledger: a payments ledger in Go over PostgreSQL and Redis. A transfer moves an amount
-- between two accounts of one currency and writes two entries that sum to zero.
--
-- The parts, from the inside out:
--   Prelude    numbers, lists, Go's strings as bytes, int64 with its wrap-around
--   Errors     the sentinels of every package, `errors.Is` and `errors.As`
--   Money      internal/money: currency codes
--   Database   migrations/ and the SQL of internal/transfer: the rows (Rows), a transaction body as a
--              function on the tables (Tx), the statements with their constraints (Statements)
--   Transfer   internal/transfer: `Command.Validate` (Command), `lockOrder` and `lockAccounts` (Locking),
--              `post` and `postOnce` (Posting), the retry policy (Backoff), `postWithRetry` (Retrying, with
--              the draws of its waits in Retrying/Paced and without them elsewhere),
--              `PostIdempotent` with all that it calls (Idempotent), the calls without a key (Service)
--   Idempotency  internal/idempotency: `ParseKey` (Key), the canonical form, digests and hexadecimal
--              (Fingerprint, Digests), the claims and completed records in Redis (Store)
--   Account    internal/account: `Create` and `Get`
--   Ledger     internal/ledger: the entries of a transfer and their sum
--   Reconcile  internal/reconcile: the queries of `Check` and the report (Check), and proofs
--              about it (DoubleEntry, Exact, Audit, Clean)
--   Auth       internal/auth: the scopes of a caller (Principal), `TokenFromAuthorization` (Bearer, with
--              proofs in Tokens), `NewVerifier` and `Verify` (Verifier, with proofs in Verified)
--   Grpc       internal/grpcapi: `toStatus` (Status, Mapping), the chain of interceptors that `New` builds
--              (Interceptors, Gate), the conversions to protobuf (Convert), the five handlers (Service,
--              with proofs in Transfers and Accounts), a `CreateTransfer` call on the whole server
--              (Authorized), and the lifecycle of the server (Lifecycle, Drain)
--   Health     internal/health: registration (Registry, Names), a run of the checks and its report
--              (Run, Orders, Aggregate); the probes of internal/httpapi and internal/grpcapi over it and
--              the registry of cmd/api (Probes)
--   Config     internal/config: the types, the readers of variables (Env), `load` (Load), `validate`
--              (Validate, and proofs in Words, Listeners, Clients and Exact), the redaction (Secrets);
--              and what internal/auth/loader.go, internal/database and cmd/api make of the result
--              (Wiring)
--   Stress     cmd/stress: `buildCommands` (Commands, Runnable), `setupAccounts` (Setup, Opened), the
--              goroutines of `execute` and their turns (Execute, with proofs in Turns, Sound, Rounds,
--              Answered, Recorded, Counters, Tallied, Retries and Ends), and `run` with its result (Run, with
--              proofs in Holds and Whole)
--   Process    internal/database and internal/redisclient: the connections (Pool, RedisClient); `run` and
--              `newLogger` of cmd/api, with the lifecycle of the HTTP server (Start, Outcome);
--              the tokens of cmd/devtoken (DevToken, Minted)
--   Tests      concrete runs and the instances of the results
--
-- The tables are one value of type `Tables`. A transaction body returns a result and the tables that it
-- leaves in its own view; `post_once` keeps that view on commit and drops it on any error. What
-- PostgreSQL, the driver and the clock do to one attempt is its `Env`: a fault for each statement, the
-- identifiers of `uuid.New()`, `now()`, and how COMMIT ends, a lost report included. SERIALIZABLE is
-- taken as what it documents: a transaction that commits behaves as if it had run alone, so an attempt is
-- one function of the committed tables, and the transactions of others come between the attempts
-- (`World`). Each query of the audit reads tables of its own; in the load test nothing commits between
-- them. Row locks are modelled apart, as a step relation (Transfer/Deadlock).
--
-- Redis is a parameter: a client over a state of its own, with no assumption on it, so that keys may expire
-- and others may write between any two commands. The JSON codec, SHA-256 and the text form of a UUID are
-- parameters too. A call of `PostIdempotent` reads the database at two more points, each after
-- transactions of others and each failable (`Surroundings`).
--
-- An interceptor takes a handler to a handler: a function of the principal in the context and of a state
-- of any type. The token library, the PEM and X.509 decoders, `uuid.Parse`, `os.ReadFile`,
-- `strings.ToLower` and `time.ParseDuration` are parameters, with no assumption on them but where a
-- theorem names one. The checks of a health run end in an order that is given; a check is a function of
-- the state of what it probes, and its text for a panic or an error is kept. The errors of `load` keep
-- the variable that they name.
--
-- The goroutines of the load test are a list of workers over the tables, the slots and the result that they
-- share. The scheduler is a list of turns, of any goroutines in any order; a turn is one attempt, or one
-- taking of a slot, or one adding to the result under the mutex, and what the outside does in it is part of
-- the turn. The lifecycle of the gRPC server is a partial step on events: those of `Run`, of the poller, of
-- `Serve` and of the RPCs in flight. The gRPC health server is an interface with its documented laws.
-- pgxpool, go-redis, `net/http` and the listeners are parameters, without assumptions. The libraries of
-- cmd/devtoken are parameters too, with what they document of each other (`Agreeing`).
--
-- Bounds: amounts and balances are int64, and BIGINT refuses what leaves that range; `transfer.delay`
-- doubles a duration with int64 wrap-around. A UUID is the number that its bytes spell. The retry loop runs
-- on fuel for `MaxAttempts` attempts, after which the source returns too. Outside Retrying/Paced a wait is
-- taken not to panic, as it does not for a maximal delay below MaxInt64.
--
-- Not modelled: the texts of errors and logs otherwise; timers and timeouts; muxes and the encoding of
-- pages; the parsing of flags and the printing; generated code (internal/gen); cmd/migrate, and the runtime
-- figures of cmd/stress.
pub mod Prelude
pub mod Errors
pub mod Money
pub mod Database
pub mod Transfer
pub mod Idempotency
pub mod Auth
pub mod Account
pub mod Ledger
pub mod Reconcile
pub mod Health
pub mod Config
pub mod Stress
pub mod Grpc
mod Tests
pub mod Process
