-- ===== src/Transfer/Retrying/Loop.antt =====
-- `postWithRetry` and what it counts. The loop has no bound of its own in the source; here it runs on
-- fuel, and `none` means that the fuel ran out. What `wait` draws does not matter here; the loop with
-- its draws, of which one may panic, is in Paced.
use realtime_payments_ledger.Prelude.{
  ℕ, zero, suc, Bool, true, false, [], ◌||◌, Option, none, some, leb, ◌-◌, if◌then◌else◌,
}
use realtime_payments_ledger.Prelude.Int.{pos, pos_part, ltb_ℤ, leb_ℤ}
use realtime_payments_ledger.Prelude.Text.{GoString, bytes, str_eq}
use realtime_payments_ledger.Errors.{Sentinel, Error, PgError, as_pg, Result, ok, err}
use realtime_payments_ledger.Database.Rows.{Transfer, Tables}
use realtime_payments_ledger.Database.Tx.{DriverError, driver_error, Env}
use realtime_payments_ledger.Transfer.Command.{Command, validate}
use realtime_payments_ledger.Transfer.Backoff.{RetryPolicy}
use realtime_payments_ledger.Transfer.Posting.{Stamp, post_once}

abbrev pub serialization_failure : GoString
serialization_failure = bytes "40001"

abbrev pub deadlock_detected : GoString
deadlock_detected = bytes "40P01"

abbrev code_of : Option PgError → GoString × Bool
code_of none = ([], false)
code_of (some p) = (p.code, str_eq p.code serialization_failure || str_eq p.code deadlock_detected)

-- `retryableCode`
unfoldable pub retryable_code : Error → GoString × Bool
retryable_code e = code_of (as_pg e)

pub record Attempts : Type 0 where
  pub total : ℕ
  pub serialization_failures : ℕ
  pub deadlocks : ℕ

abbrev pub no_attempts : Attempts
no_attempts = record { total = 0; serialization_failures = 0; deadlocks = 0 }

-- `Attempts.Retries`
unfoldable pub retries : Attempts → ℕ
retries a = if leb a.total 1 then 0 else a.total - 1

-- `Attempts.record`
unfoldable pub record_code : GoString → Attempts → Attempts
record_code code a =
    if str_eq code serialization_failure
    then record a { serialization_failures = suc a.serialization_failures }
    else (if str_eq code deadlock_detected then record a { deadlocks = suc a.deadlocks } else a)

-- `NewServiceWithPolicy`: at least one attempt.
unfoldable pub new_service_with_policy : RetryPolicy → RetryPolicy
new_service_with_policy p =
    if ltb_ℤ p.max_attempts (pos 1) then record p { max_attempts = pos 1 } else p

-- What the outside does around attempt `n`: the transactions of others that commit before it, the
-- attempt's own environment, and whether the caller's context ends the wait that follows it.
pub record World : Type 0 where
  pub interference : ℕ → Tables → Tables
  pub env : ℕ → Env
  pub context_done : ℕ → Option DriverError

abbrev pub Answer : Type 0
Answer = Result Transfer × Attempts × Tables

module _ (w : World) (policy : RetryPolicy) (cmd : Command) (stamp : Option Stamp) where
  -- What the loop does after failed attempt `n`, where `again` is the rest of the loop.
  abbrev pub after_retryable :
      ℕ → GoString → Error → Attempts → Tables → Option Answer → Option Answer
  after_retryable n code e a s again =
      if leb_ℤ policy.max_attempts (pos n)
      then some (err (Error.join (Error.sentinel Sentinel.retries_exhausted) e), a, s)
      else elim (w.context_done n) [
        | some d ↦ some (err (Error.wrap (driver_error d)), a, s)
        | none ↦ again
      ]

  abbrev pub after_error :
      ℕ → GoString × Bool → Error → Attempts → Tables → (Attempts → Option Answer) → Option Answer
  after_error n (code, false) e a s again = some (err e, a, s)
  after_error n (code, true) e a s again =
      after_retryable n code e (record_code code a) s (again (record_code code a))

  abbrev pub after_attempt :
      ℕ → Attempts → Result Transfer × Tables → (Attempts → Tables → Option Answer) → Option Answer
  after_attempt n a (ok t, s) again = some (ok t, a, s)
  after_attempt n a (err e, s) again = after_error n (retryable_code e) e a s (λ b. again b s)

  -- The loop from attempt `n` on.
  unfoldable pub retry_loop : ℕ → ℕ → Attempts → Tables → Option Answer
  retry_loop zero n a s = none
  retry_loop (suc fuel) n a s =
      after_attempt n (record a { total = n }) (post_once (w.env n) cmd stamp (w.interference n s))
        (λ b s'. retry_loop fuel (suc n) b s')

  abbrev pub validated : Result (Unit {0}) → Tables → Option Answer → Option Answer
  validated (err e) s run = some (err e, no_attempts, s)
  validated (ok u) s run = run

  -- `postWithRetry`, with fuel for as many attempts as the policy allows.
  unfoldable pub post_with_retry : Tables → Option Answer
  post_with_retry s =
      let run = retry_loop (pos_part policy.max_attempts) 1 no_attempts s in
      validated (validate cmd) s run
