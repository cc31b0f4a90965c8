-- ===== src/Stress/Execute.antt =====
-- `execute` (cmd/stress/main.go). The goroutines share the tables, the slots and the result. A turn of
-- one of them is what it does between two points where another may run: taking a slot, one attempt of
-- `PostWithAttempts` with the wait that follows, or adding its outcome to the result under the mutex,
-- with which it gives its slot back. The scheduler, a list of turns, is any.
use realtime_payments_ledger.Prelude.{
  ℕ, zero, suc, ◌+◌, Bool, true, false, Option, none, some, List, [], ◌∷◌, ◌++◌, map, ltb,
  if◌then◌else◌, length,
}
use realtime_payments_ledger.Prelude.Int.{pos, leb_ℤ}
use realtime_payments_ledger.Prelude.Text.{GoString}
use realtime_payments_ledger.Errors.{Sentinel, Error, is, Result, ok, err}
use realtime_payments_ledger.Database.Rows.{Transfer, Tables}
use realtime_payments_ledger.Database.Tx.{DriverError, driver_error, Env}
use realtime_payments_ledger.Transfer.Command.{Command, validate}
use realtime_payments_ledger.Transfer.Backoff.{RetryPolicy}
use realtime_payments_ledger.Transfer.Posting.{post_once}
use realtime_payments_ledger.Transfer.Retrying.Loop.{
  Attempts, no_attempts, retryable_code, record_code,
}

-- The part of `Result` that `execute` writes.
pub record Tally : Type 0 where
  pub successful : ℕ
  pub insufficient_funds : ℕ
  pub exhausted_retries : ℕ
  pub unexpected_failures : ℕ
  pub serialization_retries : ℕ
  pub deadlock_retries : ℕ
  pub total_attempts : ℕ
  pub max_attempts_for_one : ℕ
  pub problems : List Error

abbrev pub no_outcomes : Tally
no_outcomes = record {
  successful = 0;
  insufficient_funds = 0;
  exhausted_retries = 0;
  unexpected_failures = 0;
  serialization_retries = 0;
  deadlock_retries = 0;
  total_attempts = 0;
  max_attempts_for_one = 0;
  problems = [];
}

-- Where a goroutine stands: before its slot, before attempt `n`, with an answer, and at its end.
pub data Worker : Type 0 where
  waiting : Command → Worker
  posting : Command → ℕ → Attempts → Worker
  settled finished : Command → Result Transfer → Attempts → Worker

-- What the outside decides in a turn.
pub record Turn : Type 0 where
  pub env : Env
  pub context_done : Option DriverError

pub record Run : Type 0 where
  pub workers : List Worker
  pub tables : Tables
  pub tally : Tally

abbrev pub max : ℕ → ℕ → ℕ
max a b = if ltb a b then b else a

unfoldable pub add_attempts : Attempts → Tally → Tally
add_attempts a t = record t {
  total_attempts = t.total_attempts + a.total;
  serialization_retries = t.serialization_retries + a.serialization_failures;
  deadlock_retries = t.deadlock_retries + a.deadlocks;
  max_attempts_for_one = max t.max_attempts_for_one a.total;
}

-- The `switch` on the error of a goroutine.
unfoldable pub classify : Result Transfer → Tally → Tally
classify (ok r) t = record t { successful = suc t.successful }
classify (err e) t =
    if is Sentinel.insufficient_funds e
    then record t { insufficient_funds = suc t.insufficient_funds }
    else (if is Sentinel.retries_exhausted e
        then record t { exhausted_retries = suc t.exhausted_retries }
        else record t {
          unexpected_failures = suc t.unexpected_failures;
          problems = if ltb (length t.problems) 10 then t.problems ++ e ∷ [] else t.problems;
        })

abbrev pub holds_slot : Worker → Bool
holds_slot (Worker.posting cmd n a) = true
holds_slot (Worker.settled cmd r a) = true
holds_slot w = false

abbrev pub slots_taken : List Worker → ℕ
slots_taken [] = 0
slots_taken (w ∷ ws) = if holds_slot w then suc (slots_taken ws) else slots_taken ws

-- `PostWithAttempts` up to its first attempt.
abbrev pub enter : Command → Result (Unit {0}) → Worker
enter cmd (err e) = Worker.settled cmd (err e) no_attempts
enter cmd (ok u) = Worker.posting cmd 1 no_attempts

module _ (policy : RetryPolicy) where
  abbrev pub leave_retryable : Option DriverError → Command → ℕ → Error → Attempts → Worker
  leave_retryable context_done cmd n e a =
      if leb_ℤ policy.max_attempts (pos n)
      then Worker.settled cmd (err (Error.join (Error.sentinel Sentinel.retries_exhausted) e)) a
      else elim context_done [
        | some d ↦ Worker.settled cmd (err (Error.wrap (driver_error d))) a
        | none ↦ Worker.posting cmd (suc n) a
      ]

  abbrev pub leave_error :
      Option DriverError → Command → ℕ → GoString × Bool → Error → Attempts → Worker
  leave_error context_done cmd n (code, false) e a = Worker.settled cmd (err e) a
  leave_error context_done cmd n (code, true) e a =
      leave_retryable context_done cmd n e (record_code code a)

  -- Where an attempt leaves its goroutine.
  abbrev pub leave_attempt : Option DriverError → Command → ℕ → Attempts → Result Transfer → Worker
  leave_attempt context_done cmd n a (ok r) = Worker.settled cmd (ok r) a
  leave_attempt context_done cmd n a (err e) = leave_error context_done cmd n (retryable_code e) e a

  -- A turn of one goroutine, where `free` tells whether a slot is free.
  unfoldable pub act : Bool → Turn → Tables → Tally → Worker → Worker × Tables × Tally
  act free turn s t (Worker.waiting cmd) =
      (if free then enter cmd (validate cmd) else Worker.waiting cmd, s, t)
  act free turn s t (Worker.posting cmd n a) =
      let (r, s') = post_once turn.env cmd none s in
      (leave_attempt turn.context_done cmd n (record a { total = n }) r, s', t)
  act free turn s t (Worker.settled cmd r a) =
      (Worker.finished cmd r a, s, classify r (add_attempts a t))
  act free turn s t (Worker.finished cmd r a) = (Worker.finished cmd r a, s, t)

  -- A turn of the goroutine at an index; there is none out of range.
  unfoldable pub act_at :
      Bool → Turn → Tables → Tally → ℕ → List Worker → List Worker × Tables × Tally
  act_at free turn s t i [] = ([], s, t)
  act_at free turn s t zero (w ∷ ws) = let (w', s', t') = act free turn s t w in (w' ∷ ws, s', t')
  act_at free turn s t (suc i) (w ∷ ws) =
      let (ws', s', t') = act_at free turn s t i ws in (w ∷ ws', s', t')

  abbrev pub run_of : List Worker × Tables × Tally → Run
  run_of (ws, s, t) = record { workers = ws; tables = s; tally = t }

  unfoldable pub advance : ℕ → ℕ × Turn → Run → Run
  advance concurrency (i, turn) run =
      run_of
        (act_at (ltb (slots_taken run.workers) concurrency) turn run.tables run.tally i run.workers)

  unfoldable pub schedule : ℕ → List (ℕ × Turn) → Run → Run
  schedule concurrency [] run = run
  schedule concurrency (t ∷ turns) run = schedule concurrency turns (advance concurrency t run)

-- `close(start)`: every goroutine is released.
abbrev pub start : List Command → Tables → Run
start cmds s = record { workers = map Worker.waiting cmds; tables = s; tally = no_outcomes }

abbrev pub is_finished : Worker → Bool
is_finished (Worker.finished cmd r a) = true
is_finished w = false

-- `wg.Wait()` returns once every goroutine is at its end.
abbrev pub all_finished : List Worker → Bool
all_finished [] = true
all_finished (w ∷ ws) = if is_finished w then all_finished ws else false

-- `execute`
unfoldable pub execute : RetryPolicy → ℕ → List Command → List (ℕ × Turn) → Tables → Run
execute policy concurrency cmds turns s = schedule policy concurrency turns (start cmds s)
