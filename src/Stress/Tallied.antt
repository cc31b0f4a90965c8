-- ===== src/Stress/Tallied.antt =====
-- The result that the goroutines of `execute` add up, against the answers they got.
use realtime_payments_ledger.Prelude.{
  ℕ, ◌+◌, ◌≡◌, refl, ◌∙◌, sym, ap, Bool, true, false, List, [], ◌∷◌, ◌++◌, map, arith, none, sum_by,
  ◌⊎◌, inl, inr,
}
use realtime_payments_ledger.Errors.{Result, ok, err}
use realtime_payments_ledger.Database.Rows.{Transfer, Tables}
use realtime_payments_ledger.Transfer.Command.{Command, validate}
use realtime_payments_ledger.Transfer.Backoff.{RetryPolicy}
use realtime_payments_ledger.Transfer.Posting.{post_once}
use realtime_payments_ledger.Transfer.Retrying.Loop.{Attempts}
use realtime_payments_ledger.Stress.Execute.{
  Tally, no_outcomes, Worker, Turn, Run, max, add_attempts, classify, act, start, execute,
  is_finished,
}
use realtime_payments_ledger.Stress.Turns.{Acted, schedule_rule}
use realtime_payments_ledger.Stress.Counters.{
  finished_as, one, succeeds, runs_short, exhausts, fails, Counter, weight-leave_attempt,
  weight-enter, counted, successes, shortages, exhaustions, failures, attempts, serializations,
  deadlocks,
}

-- The most that one of the finished goroutines counts for.
abbrev pub most : (Result Transfer → Attempts → ℕ) → List Worker → ℕ
most f [] = 0
most f (w ∷ ws) = max (finished_as f w) (most f ws)

most-replace :
    (f : Result Transfer → Attempts → ℕ) (xs : List Worker) (x y : Worker) (zs : List Worker)
    → finished_as f x ≡ 0
    → most f (xs ++ y ∷ zs) ≡ max (most f (xs ++ x ∷ zs)) (finished_as f y)
most-replace f [] x y zs h = ground (arith, h)
most-replace f (w ∷ xs) x y zs h = ground (arith, most-replace f xs x y zs h)

most-same :
    (f : Result Transfer → Attempts → ℕ) (xs : List Worker) (x y : Worker) (zs : List Worker)
    → finished_as f x ≡ finished_as f y
    → most f (xs ++ x ∷ zs) ≡ most f (xs ++ y ∷ zs)
most-same f [] x y zs h = ground (arith, h)
most-same f (w ∷ xs) x y zs h = ground (arith, most-same f xs x y zs h)

most-started :
    (f : Result Transfer → Attempts → ℕ) (cmds : List Command)
    → most f (map Worker.waiting cmds) ≡ 0
most-started f [] = refl
most-started f (c ∷ cmds) = ground (arith, most-started f cmds)

-- What the counters of the result are of the goroutines at their end.
pub record Tallied (ws : List Worker) (t : Tally) : Type 0 where
  pub successful : t.successful ≡ sum_by (finished_as (λ r a. succeeds r)) ws
  pub insufficient_funds : t.insufficient_funds ≡ sum_by (finished_as (λ r a. runs_short r)) ws
  pub exhausted_retries : t.exhausted_retries ≡ sum_by (finished_as (λ r a. exhausts r)) ws
  pub unexpected_failures : t.unexpected_failures ≡ sum_by (finished_as (λ r a. fails r)) ws
  pub total_attempts : t.total_attempts ≡ sum_by (finished_as (λ r a. a.total)) ws
  pub serialization_retries :
      t.serialization_retries ≡ sum_by (finished_as (λ r a. a.serialization_failures)) ws
  pub deadlock_retries : t.deadlock_retries ≡ sum_by (finished_as (λ r a. a.deadlocks)) ws
  pub max_attempts_for_one : t.max_attempts_for_one ≡ most (λ r a. a.total) ws
  pub accounted :
      t.successful + t.insufficient_funds + t.exhausted_retries + t.unexpected_failures
      ≡ sum_by (λ w. one (is_finished w)) ws

abbrev attempts_of : Result Transfer → Attempts → ℕ
attempts_of r a = a.total

max-classify :
    (r : Result Transfer) (a : Attempts) (t : Tally)
    → (classify r (add_attempts a t)).max_attempts_for_one ≡ max t.max_attempts_for_one a.total
unfolding classify add_attempts
max-classify (ok r) a t = refl
max-classify (err e) a t = ground arith

module _ (policy : RetryPolicy) where
  max-act :
      (free : Bool) (turn : Turn) (s : Tables) (t : Tally) (w : Worker)
      → let out = act policy free turn s t w in
        ((finished_as attempts_of w ≡ finished_as attempts_of out.0)
          × (out.2.max_attempts_for_one ≡ t.max_attempts_for_one))
        ⊎ ((finished_as attempts_of w ≡ 0)
            × (out.2.max_attempts_for_one
                ≡ max t.max_attempts_for_one (finished_as attempts_of out.0)))
  unfolding act
  max-act true turn s t (Worker.waiting cmd) =
      inl (sym (weight-enter policy attempts_of cmd (validate cmd)), refl)
  max-act false turn s t (Worker.waiting cmd) = inl (refl, refl)
  max-act free turn s t (Worker.posting cmd n a) = inl (
    sym (
        weight-leave_attempt policy attempts_of turn.context_done cmd n (record a { total = n })
          (post_once turn.env cmd none s).0),
    refl,
  )
  max-act free turn s t (Worker.settled cmd r a) = inr (refl, max-classify r a t)
  max-act free turn s t (Worker.finished cmd r a) = inl (refl, refl)

  max-counted :
      (concurrency : ℕ) (cmds : List Command) (turns : List (ℕ × Turn)) (s : Tables)
      → let run = execute policy concurrency cmds turns s in
        run.tally.max_attempts_for_one ≡ most attempts_of run.workers
  unfolding execute
  max-counted concurrency cmds turns s =
      schedule_rule policy (λ run. run.tally.max_attempts_for_one ≡ most attempts_of run.workers)
        concurrency keeps turns (start cmds s) (sym (most-started attempts_of cmds))
    where
      keeps :
          (run run' : Run) (free : Bool) (turn : Turn)
          → Acted policy free turn run.tables run.tally run.workers
              (run'.workers, run'.tables, run'.tally)
          → run.tally.max_attempts_for_one ≡ most attempts_of run.workers
          → run'.tally.max_attempts_for_one ≡ most attempts_of run'.workers
      keeps run run' free turn m h =
          let w' = (act policy free turn run.tables run.tally m.worker).0 in
          let tally = ap (λ (t : Tally). t.max_attempts_for_one) m.tally in
          let old = ap (most attempts_of) m.split in
          let new = ap (most attempts_of) m.workers in
          elim (max-act free turn run.tables run.tally m.worker) [
            | inl (same, q) ↦
                tally
                ∙ q
                ∙ h
                ∙ old
                ∙ most-same attempts_of m.before m.worker w' m.after same
                ∙ sym new
            | inr (none_yet, q) ↦
                tally
                ∙ q
                ∙ ap (λ n. max n (finished_as attempts_of w')) (h ∙ old)
                ∙ sym (most-replace attempts_of m.before m.worker w' m.after none_yet)
                ∙ sym new
          ]

ways :
    (w : Worker)
    → finished_as (λ r a. succeeds r) w
        + finished_as (λ r a. runs_short r) w
        + finished_as (λ r a. exhausts r) w
        + finished_as (λ r a. fails r) w
      ≡ one (is_finished w)
ways (Worker.waiting cmd) = refl
ways (Worker.posting cmd n a) = refl
ways (Worker.settled cmd r a) = refl
ways (Worker.finished cmd (ok t) a) = refl
ways (Worker.finished cmd (err e) a) = ground arith

all_ways :
    (ws : List Worker)
    → sum_by (finished_as (λ r a. succeeds r)) ws
        + sum_by (finished_as (λ r a. runs_short r)) ws
        + sum_by (finished_as (λ r a. exhausts r)) ws
        + sum_by (finished_as (λ r a. fails r)) ws
      ≡ sum_by (λ w. one (is_finished w)) ws
all_ways [] = omega arith
all_ways (w ∷ ws) = omega (arith, ways w, all_ways ws)

-- At every moment of a run, each counter of the result is the sum, or the maximum, over the goroutines
-- at their end, and each of them is counted under one of the four outcomes.
pub execute-Tallied :
    (policy : RetryPolicy) (concurrency : ℕ) (cmds : List Command) (turns : List (ℕ × Turn))
    (s : Tables)
    → let run = execute policy concurrency cmds turns s in Tallied run.workers run.tally
execute-Tallied policy concurrency cmds turns s =
    let run = execute policy concurrency cmds turns s in
    let count : (k : Counter)
        → k.read no_outcomes ≡ 0
        → k.read run.tally ≡ sum_by (finished_as k.weight) run.workers =
      λ k z. counted policy k concurrency cmds turns s z in
    let successful = count successes refl in
    let insufficient = count shortages refl in
    let exhausted = count exhaustions refl in
    let unexpected = count failures refl in
    record {
      successful = successful;
      insufficient_funds = insufficient;
      exhausted_retries = exhausted;
      unexpected_failures = unexpected;
      total_attempts = count attempts refl;
      serialization_retries = count serializations refl;
      deadlock_retries = count deadlocks refl;
      max_attempts_for_one = max-counted policy concurrency cmds turns s;
      accounted =
          omega (arith, successful, insufficient, exhausted, unexpected, all_ways run.workers);
    }
