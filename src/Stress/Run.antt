-- ===== src/Stress/Run.antt =====
-- `run`, `readBalances` and `Result.OK` (cmd/stress/main.go). The messages of `Problems` beyond the
-- unexpected failures, the environment, the duration and the printing are left out; `emit` may fail.
use realtime_payments_ledger.Prelude.{
  ℕ, suc, ◌+◌, Bool, ◌&&◌, ◌||◌, Option, none, some, List, [], ◌∷◌, ◌==◌, length, if◌then◌else◌,
}
use realtime_payments_ledger.Prelude.Int.{ℤ, pos, pos_part, ltb_ℤ, leb_ℤ, eqb_ℤ}
use realtime_payments_ledger.Prelude.Text.{GoString}
use realtime_payments_ledger.Errors.{Error, Result, ok, err, ◌>>=◌, ◌>>◌}
use realtime_payments_ledger.Money.{Currency, parse_currency}
use realtime_payments_ledger.Database.Rows.{Uuid, Account, Tables, sum_balances}
use realtime_payments_ledger.Database.Tx.{DriverError}
use realtime_payments_ledger.Transfer.Command.{Command}
use realtime_payments_ledger.Transfer.Backoff.{RetryPolicy, default_retry_policy}
use realtime_payments_ledger.Transfer.Retrying.Loop.{new_service_with_policy}
use realtime_payments_ledger.Account
use realtime_payments_ledger.Reconcile.Check
use realtime_payments_ledger.Reconcile.Check.{
  Baseline, report_ok, query, scan_int64, check, snapshot_baseline,
}
use realtime_payments_ledger.Config.Env.{Lookup, Std}
use realtime_payments_ledger.Config.Load.{Loaded, load}
use realtime_payments_ledger.Process.Pool.{PgxPool, new_pool, verify_pool}
use realtime_payments_ledger.Stress.Commands.{Options, build_commands}
use realtime_payments_ledger.Stress.Execute.{Tally, Turn, all_finished, execute}
use realtime_payments_ledger.Stress.Execute
use realtime_payments_ledger.Stress.Setup.{Flags, Opening, setup_accounts}

-- `Result`
pub record Summary : Type 0 where
  pub attempts : ℕ
  pub concurrency : ℤ
  pub amount_minor : ℤ
  pub currency : GoString
  pub retry_budget : ℤ
  pub tally : Tally
  pub negative_balances : ℕ
  pub ledger_invariant_violations : ℕ
  pub conservation_held : Bool
  pub reconciliation_ok : Bool
  pub total_balance_before : ℤ
  pub total_balance_after : ℤ
  pub balances_before : List (Uuid × ℤ)
  pub balances_after : List (Uuid × ℤ)
  pub completed_transfers : ℕ
  pub pending_transfers : ℕ
  pub ledger_entries : ℕ

-- `Result.OK`
unfoldable pub summary_ok : Summary → Bool
summary_ok r =
    (r.negative_balances == 0)
    && (r.ledger_invariant_violations == 0)
    && r.conservation_held
    && r.reconciliation_ok
    && (r.tally.unexpected_failures == 0)

-- Which of the queries of a read fail: one for each account, and the sum.
pub record Reading : Type 0 where
  pub account : Uuid → Option DriverError
  pub sum : Option DriverError

-- `readBalances`; a map is the list of what is put into it.
unfoldable pub read_each :
    (Uuid → Option DriverError) → List Uuid → Tables → Result (List (Uuid × ℤ))
read_each fault [] s = ok []
read_each fault (i ∷ ids) s = wrapped (Account.get (fault i) i s) >>= λ acct.
    read_each fault ids s >>= λ rest. ok ((i, acct.balance_minor) ∷ rest)
  where
    wrapped : Result Account → Result Account
    wrapped (ok a) = ok a
    wrapped (err e) = err (Error.wrap e)

unfoldable pub read_balances : Reading → List Uuid → Tables → Result (List (Uuid × ℤ) × ℤ)
read_balances f ids s = read_each f.account ids s >>= λ balances.
    query f.sum (scan_int64 (sum_balances s.accounts)) >> ok (balances, sum_balances s.accounts)

-- What the outside gives a run.
pub record Outside : Type 0 where
  pub std : Std
  pub environment : Lookup
  pub pgx : PgxPool
  pub ping : ℤ → Option Error
  pub parse_uuid : GoString → Result Uuid
  pub opening : Opening
  pub snapshot : Option DriverError
  pub before : Reading
  pub turns : List (ℕ × Turn)
  pub after : Reading
  pub audit : ℕ → Option DriverError
  pub emit : Option Error

-- How a run ends: with an error before its result, with its result and whether `run` returned nil, in a
-- panic, or not yet.
pub data Exit : Type 0 where
  failed : Error → Exit
  reported : Summary → Bool → Exit
  panicked unfinished : Exit

-- `LedgerInvariantViolations`
abbrev pub violations_of : Check.Report → ℕ
violations_of r =
    let n = length r.unbalanced_transfers + length r.balance_mismatches in
    if eqb_ℤ r.total_ledger_minor (pos 0) then n else suc n

abbrev pub policy_of_service : RetryPolicy
policy_of_service = new_service_with_policy default_retry_policy

module _ (out : Outside) (opt : Flags) where
  abbrev pub workload : Options
  workload = record {
    scenario = opt.scenario;
    attempts = pos_part opt.attempts;
    amount = opt.amount;
  }

  -- The concurrency, where 0 and anything above the attempts mean all at once.
  abbrev pub concurrency_of : ℤ
  concurrency_of =
      if leb_ℤ opt.concurrency (pos 0) || ltb_ℤ opt.attempts opt.concurrency
      then opt.attempts
      else opt.concurrency

  module _ (currency : Currency) (ids : List Uuid) (baseline : Baseline)
      (before : List (Uuid × ℤ) × ℤ) (cmds : List Command) where
    abbrev pub summary : Tally → List (Uuid × ℤ) × ℤ → Check.Report → Summary
    summary t after r = record {
      attempts = length cmds;
      concurrency = concurrency_of;
      amount_minor = opt.amount;
      currency = currency;
      retry_budget = policy_of_service.max_attempts;
      tally = t;
      negative_balances = length r.negative_balances;
      ledger_invariant_violations = violations_of r;
      conservation_held = eqb_ℤ before.1 after.1;
      reconciliation_ok = report_ok r;
      total_balance_before = before.1;
      total_balance_after = after.1;
      balances_before = before.0;
      balances_after = after.0;
      completed_transfers = r.completed_transfers;
      pending_transfers = r.pending_transfers;
      ledger_entries = r.ledger_entries;
    }

    -- What `run` reads once the goroutines are at their end.
    unfoldable pub assess : Execute.Run → Result Summary
    assess run = read_balances out.after ids run.tables >>= λ after.
        check out.audit baseline (λ q. run.tables) >>= λ report. ok (summary run.tally after report)

    abbrev pub emitted : Option Error → Result Summary → Exit
    emitted e (err d) = Exit.failed d
    emitted (some e) (ok r) = Exit.failed e
    emitted none (ok r) = Exit.reported r (summary_ok r)

    abbrev pub after_execute : Execute.Run → Exit
    after_execute run =
        if all_finished run.workers then emitted out.emit (assess run) else Exit.unfinished

  abbrev pub with_balances :
      Currency → List Uuid → List Command → Tables → Baseline → Result (List (Uuid × ℤ) × ℤ) → Exit
  with_balances currency ids cmds s baseline (err e) = Exit.failed e
  with_balances currency ids cmds s baseline (ok before) =
      after_execute currency ids baseline before cmds
        (execute policy_of_service (pos_part concurrency_of) cmds out.turns s)

  abbrev pub with_baseline : Currency → List Uuid → List Command → Tables → Result Baseline → Exit
  with_baseline currency ids cmds s (err e) = Exit.failed e
  with_baseline currency ids cmds s (ok baseline) =
      with_balances currency ids cmds s baseline (read_balances out.before ids s)

  abbrev pub with_commands : Currency → List Uuid → Tables → Option (List Command) → Exit
  with_commands currency ids s none = Exit.panicked
  with_commands currency ids s (some cmds) =
      with_baseline currency ids cmds s (snapshot_baseline out.snapshot s)

  abbrev pub with_accounts : Currency → Result (List Uuid) × Tables → Exit
  with_accounts currency (err e, s) = Exit.failed e
  with_accounts currency (ok ids, s) =
      with_commands currency ids s (build_commands workload currency ids)

  abbrev pub connected : Loaded → Result (Unit {0})
  connected (Loaded.rejected problems) = err Error.opaque
  connected (Loaded.loaded cfg) = new_pool out.pgx cfg >>= λ db. verified (verify_pool out.ping db)
    where
      verified : Option Error → Result (Unit {0})
      verified none = ok tt
      verified (some e) = err (Error.wrap e)

  -- The currency, once the configuration is loaded and the database answers.
  abbrev pub prepared : Result Currency
  prepared = parse_currency opt.currency >>= λ c. connected (load out.std out.environment) >> ok c

  abbrev pub started : Tables → Result Currency → Exit
  started s (err e) = Exit.failed e
  started s (ok c) = with_accounts c (setup_accounts out.parse_uuid out.opening opt c s)

  -- `run`
  unfoldable pub run : Tables → Exit
  run s = if ltb_ℤ opt.attempts (pos 1) then Exit.failed Error.opaque else started s prepared
