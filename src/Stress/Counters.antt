-- ===== src/Stress/Counters.antt =====
-- The counters that the goroutines of `execute` add up, each as a sum over the answers.
use realtime_payments_ledger.Prelude.{
  ℕ, ◌+◌, ◌≡◌, refl, ◌∙◌, sym, ap, Bool, true, false, not, ◌&&◌, List, [], ◌∷◌, map, arith,
  if◌then◌else◌, none, some, Option, sum_by, sum_by-replace,
}
use realtime_payments_ledger.Prelude.Text.{GoString}
use realtime_payments_ledger.Errors.{Sentinel, is, Error, Result, ok, err}
use realtime_payments_ledger.Database.Rows.{Transfer, Tables}
use realtime_payments_ledger.Database.Tx.{DriverError}
use realtime_payments_ledger.Transfer.Command.{Command, validate}
use realtime_payments_ledger.Transfer.Backoff.{RetryPolicy}
use realtime_payments_ledger.Transfer.Posting.{post_once}
use realtime_payments_ledger.Transfer.Retrying.Loop.{Attempts, record_code, retryable_code}
use realtime_payments_ledger.Stress.Execute.{
  Tally, no_outcomes, Worker, Turn, Run, add_attempts, classify, enter, leave_retryable,
  leave_error, leave_attempt, act, start, execute,
}
use realtime_payments_ledger.Stress.Turns.{Acted, schedule_rule}

-- What a finished goroutine counts for, and the others do not.
abbrev pub finished_as : (Result Transfer → Attempts → ℕ) → Worker → ℕ
finished_as f (Worker.finished cmd r a) = f r a
finished_as f w = 0

-- The four ways to end, each 1 or 0.
abbrev pub one : Bool → ℕ
one b = if b then 1 else 0

abbrev pub succeeds : Result Transfer → ℕ
succeeds (ok t) = 1
succeeds (err e) = 0

abbrev pub runs_short : Result Transfer → ℕ
runs_short (ok t) = 0
runs_short (err e) = one (is Sentinel.insufficient_funds e)

abbrev pub exhausts : Result Transfer → ℕ
exhausts (ok t) = 0
exhausts (err e) = one (not (is Sentinel.insufficient_funds e) && is Sentinel.retries_exhausted e)

abbrev pub fails : Result Transfer → ℕ
fails (ok t) = 0
fails (err e) =
    one (not (is Sentinel.insufficient_funds e) && not (is Sentinel.retries_exhausted e))

-- A counter of the result, and what an answer adds to it.
pub record Counter : Type 0 where
  pub read : Tally → ℕ
  pub weight : Result Transfer → Attempts → ℕ
  pub law :
      (r : Result Transfer) (a : Attempts) (t : Tally)
      → read (classify r (add_attempts a t)) ≡ read t + weight r a

module _ (policy : RetryPolicy) where
  module _ (f : Result Transfer → Attempts → ℕ) where
    weight-leave_retryable :
        (c : Option DriverError) (cmd : Command) (n : ℕ) (e : Error) (a : Attempts)
        → finished_as f (leave_retryable policy c cmd n e a) ≡ 0
    weight-leave_retryable none cmd n e a = ground arith
    weight-leave_retryable (some d) cmd n e a = ground arith

    weight-leave_error :
        (c : Option DriverError) (cmd : Command) (n : ℕ) (code : GoString × Bool) (e : Error)
        (a : Attempts)
        → finished_as f (leave_error policy c cmd n code e a) ≡ 0
    weight-leave_error c cmd n (code, false) e a = refl
    weight-leave_error c cmd n (code, true) e a =
        weight-leave_retryable c cmd n e (record_code code a)

    pub weight-leave_attempt :
        (c : Option DriverError) (cmd : Command) (n : ℕ) (a : Attempts) (r : Result Transfer)
        → finished_as f (leave_attempt policy c cmd n a r) ≡ 0
    weight-leave_attempt c cmd n a (ok t) = refl
    weight-leave_attempt c cmd n a (err e) = weight-leave_error c cmd n (retryable_code e) e a

    pub weight-enter : (cmd : Command) (r : Result (Unit {0})) → finished_as f (enter cmd r) ≡ 0
    weight-enter cmd (ok u) = refl
    weight-enter cmd (err e) = refl

    weight-started : (cmds : List Command) → sum_by (finished_as f) (map Worker.waiting cmds) ≡ 0
    weight-started [] = refl
    weight-started (c ∷ cmds) = omega (arith, weight-started cmds)

  -- A turn adds to a counter what its goroutine comes to count for.
  read-act :
      (k : Counter) (free : Bool) (turn : Turn) (s : Tables) (t : Tally) (w : Worker)
      → let out = act policy free turn s t w in
        k.read out.2 + finished_as k.weight w ≡ k.read t + finished_as k.weight out.0
  unfolding act
  read-act k true turn s t (Worker.waiting cmd) =
      omega (arith, weight-enter k.weight cmd (validate cmd))
  read-act k false turn s t (Worker.waiting cmd) = refl
  read-act k free turn s t (Worker.posting cmd n a) = omega (
    arith,
    weight-leave_attempt k.weight turn.context_done cmd n (record a { total = n })
        (post_once turn.env cmd none s).0,
  )
  read-act k free turn s t (Worker.settled cmd r a) = omega (arith, k.law r a t)
  read-act k free turn s t (Worker.finished cmd r a) = refl

  pub counted :
      (k : Counter) (concurrency : ℕ) (cmds : List Command) (turns : List (ℕ × Turn)) (s : Tables)
      → k.read no_outcomes ≡ 0
      → let run = execute policy concurrency cmds turns s in
        k.read run.tally ≡ sum_by (finished_as k.weight) run.workers
  unfolding execute
  counted k concurrency cmds turns s none_yet =
      schedule_rule policy (λ run. k.read run.tally ≡ sum_by (finished_as k.weight) run.workers)
        concurrency keeps turns (start cmds s) (none_yet ∙ sym (weight-started k.weight cmds))
    where
      keeps :
          (run run' : Run) (free : Bool) (turn : Turn)
          → Acted policy free turn run.tables run.tally run.workers
              (run'.workers, run'.tables, run'.tally)
          → k.read run.tally ≡ sum_by (finished_as k.weight) run.workers
          → k.read run'.tally ≡ sum_by (finished_as k.weight) run'.workers
      keeps run run' free turn m h =
          let w' = (act policy free turn run.tables run.tally m.worker).0 in
          omega (
            arith,
            h,
            ap k.read m.tally,
            ap (sum_by (finished_as k.weight)) m.split,
            ap (sum_by (finished_as k.weight)) m.workers,
            read-act k free turn run.tables run.tally m.worker,
            sum_by-replace (finished_as k.weight) m.before m.worker w' m.after,
          )

pub successes-law :
    (r : Result Transfer) (a : Attempts) (t : Tally)
    → (classify r (add_attempts a t)).successful ≡ t.successful + succeeds r
unfolding classify add_attempts
successes-law (ok r) a t = ground arith
successes-law (err e) a t = ground arith

abbrev pub successes : Counter
successes = record { read = λ t. t.successful; weight = λ r a. succeeds r; law = successes-law }

pub shortages-law :
    (r : Result Transfer) (a : Attempts) (t : Tally)
    → (classify r (add_attempts a t)).insufficient_funds ≡ t.insufficient_funds + runs_short r
unfolding classify add_attempts
shortages-law (ok r) a t = ground arith
shortages-law (err e) a t = ground arith

abbrev pub shortages : Counter
shortages = record {
  read = λ t. t.insufficient_funds;
  weight = λ r a. runs_short r;
  law = shortages-law;
}

pub exhaustions-law :
    (r : Result Transfer) (a : Attempts) (t : Tally)
    → (classify r (add_attempts a t)).exhausted_retries ≡ t.exhausted_retries + exhausts r
unfolding classify add_attempts
exhaustions-law (ok r) a t = ground arith
exhaustions-law (err e) a t = ground arith

abbrev pub exhaustions : Counter
exhaustions = record {
  read = λ t. t.exhausted_retries;
  weight = λ r a. exhausts r;
  law = exhaustions-law;
}

pub failures-law :
    (r : Result Transfer) (a : Attempts) (t : Tally)
    → (classify r (add_attempts a t)).unexpected_failures ≡ t.unexpected_failures + fails r
unfolding classify add_attempts
failures-law (ok r) a t = ground arith
failures-law (err e) a t = ground arith

abbrev pub failures : Counter
failures = record { read = λ t. t.unexpected_failures; weight = λ r a. fails r; law = failures-law }

pub attempts-law :
    (r : Result Transfer) (a : Attempts) (t : Tally)
    → (classify r (add_attempts a t)).total_attempts ≡ t.total_attempts + a.total
unfolding classify add_attempts
attempts-law (ok r) a t = ground arith
attempts-law (err e) a t = ground arith

abbrev pub attempts : Counter
attempts = record { read = λ t. t.total_attempts; weight = λ r a. a.total; law = attempts-law }

pub serializations-law :
    (r : Result Transfer) (a : Attempts) (t : Tally)
    → (classify r (add_attempts a t)).serialization_retries
      ≡ t.serialization_retries + a.serialization_failures
unfolding classify add_attempts
serializations-law (ok r) a t = ground arith
serializations-law (err e) a t = ground arith

abbrev pub serializations : Counter
serializations = record {
  read = λ t. t.serialization_retries;
  weight = λ r a. a.serialization_failures;
  law = serializations-law;
}

pub deadlocks-law :
    (r : Result Transfer) (a : Attempts) (t : Tally)
    → (classify r (add_attempts a t)).deadlock_retries ≡ t.deadlock_retries + a.deadlocks
unfolding classify add_attempts
deadlocks-law (ok r) a t = ground arith
deadlocks-law (err e) a t = ground arith

abbrev pub deadlocks : Counter
deadlocks = record {
  read = λ t. t.deadlock_retries;
  weight = λ r a. a.deadlocks;
  law = deadlocks-law;
}
