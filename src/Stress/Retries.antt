-- ===== src/Stress/Retries.antt =====
-- The attempts that a run of `execute` adds up.
use realtime_payments_ledger.Prelude.{
  ℕ, ◌+◌, ◌*◌, ◌≤◌, ◌≡◌, sym, ap, subst, ◌∙◌, List, [], ◌∷◌, arith, All, All-map, length, sum_by,
  length-map, inl, inr, none,
}
use mathlib.Core.Option.{some-injective}
use realtime_payments_ledger.Prelude.Int.{pos_part}
use realtime_payments_ledger.Database.Rows.{Tables}
use realtime_payments_ledger.Transfer.Command.{Command}
use realtime_payments_ledger.Transfer.Backoff.{RetryPolicy}
use realtime_payments_ledger.Transfer.Retrying.Loop.{Answer, new_service_with_policy}
use realtime_payments_ledger.Transfer.Retrying.Counts.{Settles, post_with_retry-ends}
use realtime_payments_ledger.Transfer.Service.{post_with_attempts}
use realtime_payments_ledger.Stress.Execute.{Worker, Turn, execute}
use realtime_payments_ledger.Stress.Sound.{command_of}
use realtime_payments_ledger.Stress.Counters.{finished_as}
use realtime_payments_ledger.Stress.Tallied.{execute-Tallied}
use realtime_payments_ledger.Stress.Answered.{Answered, execute-Answered}

-- What the counters of one goroutine at its end satisfy.
abbrev Bounded : ℕ → Worker → Type 0
Bounded m w =
    (finished_as (λ r a. a.total) w ≤ m)
    × (finished_as (λ r a. a.serialization_failures) w + finished_as (λ r a. a.deadlocks) w
        ≤ finished_as (λ r a. a.total) w)
    × (finished_as (λ r a. a.total) w
        ≤ finished_as (λ r a. a.serialization_failures) w + finished_as (λ r a. a.deadlocks) w + 1)

module _ (p : RetryPolicy) where
  abbrev policy : RetryPolicy
  policy = new_service_with_policy p

  Settles-Bounded :
      (cmd : Command) (s : Tables) (out : Answer)
      → Settles policy cmd s out
      → Bounded (pos_part policy.max_attempts) (Worker.finished cmd out.0 out.1)
  Settles-Bounded cmd s out (inl (e, v, q)) = rw q (omega arith)
  Settles-Bounded cmd s out (inr (v, c)) = (c.1, c.2, c.3)

  Answered-Bounded :
      (s : Tables) (w : Worker) → Answered policy s w → Bounded (pos_part policy.max_attempts) w
  unfolding post_with_attempts
  Answered-Bounded s (Worker.waiting cmd) h = omega arith
  Answered-Bounded s (Worker.posting cmd n a) h = omega arith
  Answered-Bounded s (Worker.settled cmd r a) h = omega arith
  Answered-Bounded s (Worker.finished cmd r a) (w, s', q) =
      let (out, run, settles) = post_with_retry-ends w p cmd none s in
      let same = some-injective out (r, a, s') (sym run ∙ q) in
      subst (λ (o : Answer). Bounded (pos_part policy.max_attempts) (Worker.finished cmd o.0 o.1))
        same (Settles-Bounded cmd s out settles)

  all-Bounded :
      (m : ℕ) (ws : List Worker)
      → All (Bounded m) ws
      → (sum_by (finished_as (λ r a. a.total)) ws ≤ length ws * m)
        × (sum_by (finished_as (λ r a. a.serialization_failures)) ws
              + sum_by (finished_as (λ r a. a.deadlocks)) ws
            ≤ sum_by (finished_as (λ r a. a.total)) ws)
        × (sum_by (finished_as (λ r a. a.total)) ws
            ≤ sum_by (finished_as (λ r a. a.serialization_failures)) ws
              + sum_by (finished_as (λ r a. a.deadlocks)) ws
              + length ws)
  all-Bounded m [] h = omega arith
  all-Bounded m (w ∷ ws) ((a, b, c), h) = let (x, y, z) = all-Bounded m ws h in omega arith

  -- At every moment of a run under the policy of a service: the attempts are at most the budget for each
  -- command, every retryable failure is one of them, and each command has at most one attempt that is not
  -- such a failure.
  pub execute-retries :
      (concurrency : ℕ) (cmds : List Command) (turns : List (ℕ × Turn)) (s : Tables)
      → let t = (execute policy concurrency cmds turns s).tally in
        (t.total_attempts ≤ length cmds * pos_part policy.max_attempts)
        × (t.serialization_retries + t.deadlock_retries ≤ t.total_attempts)
        × (t.total_attempts ≤ t.serialization_retries + t.deadlock_retries + length cmds)
  execute-retries concurrency cmds turns s =
      let run = execute policy concurrency cmds turns s in
      let (same, h) = execute-Answered p concurrency cmds turns s in
      let m = pos_part policy.max_attempts in
      let (x, y, z) = all-Bounded m run.workers (All-map run.workers (Answered-Bounded s) h) in
      let t = execute-Tallied policy concurrency cmds turns s in
      let n : length run.workers ≡ length cmds =
        sym (length-map command_of run.workers) ∙ ap length same in
      rw (t.total_attempts, t.serialization_retries, t.deadlock_retries, sym n) (x, y, z)
