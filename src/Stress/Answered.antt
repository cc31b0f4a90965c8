-- ===== src/Stress/Answered.antt =====
-- The goroutines of `execute` against `PostWithAttempts`, called alone.
use realtime_payments_ledger.Prelude.{
  ℕ, suc, ◌+◌, ◌-◌, ◌<◌, ◌≡◌, refl, sym, subst, ◌∙◌, ap, Bool, true, false, none, some, List, [],
  ◌∷◌, ◌++◌, map, arith, All, All-map, All-replace,
}
use realtime_payments_ledger.Prelude.Int.{pos, pos_part}
use realtime_payments_ledger.Errors.{Error, Result, ok, err}
use realtime_payments_ledger.Database.Rows.{Tables}
use realtime_payments_ledger.Transfer.Command.{Command, validate}
use realtime_payments_ledger.Transfer.Backoff.{RetryPolicy}
use realtime_payments_ledger.Transfer.Posting.{post_once}
use realtime_payments_ledger.Transfer.Retrying.Loop.{
  no_attempts, World, Answer, retry_loop, post_with_retry, new_service_with_policy,
}
use realtime_payments_ledger.Transfer.Retrying.Counts.{new_service_with_policy-budget}
use realtime_payments_ledger.Transfer.Service.{post_with_attempts}
use realtime_payments_ledger.Stress.Execute.{Tally, Worker, Turn, Run, enter, act, start, execute}
use realtime_payments_ledger.Stress.Sound.{command_of, command-leave_attempt, command_of-act}
use realtime_payments_ledger.Stress.Turns.{Acted, schedule_rule}
use realtime_payments_ledger.Stress.Rounds.{Agree, Leaves, Mirrors, with_turn, next_round}

map-replace :
    (xs : List Worker) (x y : Worker) (zs : List Worker)
    → command_of y ≡ command_of x
    → map command_of (xs ++ y ∷ zs) ≡ map command_of (xs ++ x ∷ zs)
map-replace [] x y zs h = ap (λ c. c ∷ map command_of zs) h
map-replace (w ∷ xs) x y zs h = ap (λ l. command_of w ∷ l) (map-replace xs x y zs h)

module _ (policy : RetryPolicy) (m : ℕ) (bound : policy.max_attempts ≡ pos m) where
  -- A call alone, of a command that passes the validation.
  alone :
      (v : World) (cmd : Command) (s₀ : Tables) (out : Answer)
      → validate cmd ≡ ok tt
      → retry_loop v policy cmd none m 1 no_attempts s₀ ≡ some out
      → post_with_attempts v policy cmd s₀ ≡ some out
  unfolding post_with_attempts post_with_retry
  alone v cmd s₀ out valid h = rw valid (
      subst (λ k. retry_loop v policy cmd none k 1 no_attempts s₀ ≡ some out)
        (sym (ap pos_part bound)) h)

  refused_alone :
      (v : World) (cmd : Command) (s₀ : Tables) (e : Error)
      → validate cmd ≡ err e
      → post_with_attempts v policy cmd s₀ ≡ some (err e, no_attempts, s₀)
  unfolding post_with_attempts post_with_retry
  refused_alone v cmd s₀ e bad = rw bad refl

  settled_or_on :
      (w : World) (s₀ : Tables) (cmd : Command) (j : ℕ) (s' : Tables) (x : Worker)
      → validate cmd ≡ ok tt
      → j < m
      → command_of x ≡ cmd
      → ((v : World)
          → Agree (suc j) w v
          → (fuel total : ℕ) → total ≡ suc j + fuel
          → Leaves m
              (suc j)
              s'
              (retry_loop v policy cmd none total 1 no_attempts s₀)
              (λ b. retry_loop v policy cmd none fuel (suc (suc j)) b s')
              x)
      → Mirrors policy m bound s₀ x
  settled_or_on w s₀ cmd j s' (Worker.waiting c) valid small same f = tt
  settled_or_on w s₀ cmd j s' (Worker.posting c k b) valid small same f =
      let (next, more, q) = f w (λ i h. (refl, refl, λ x. refl)) 0 (suc j + 0) refl in
      (
        rw same valid,
        (suc j, next, more, (w, λ v agree fuel total h. (s', rw same (f v agree fuel total h).2))),
      )
  settled_or_on w s₀ cmd j s' (Worker.settled c r b) valid small same f = (
    w,
    s',
    rw same (
        alone w cmd s₀ (r, b, s') valid
          (f w (λ i h. (refl, refl, λ x. refl)) (m - suc j) m (omega (arith, small)))),
  )
  settled_or_on w s₀ cmd j s' (Worker.finished c r b) valid small same f =
      absurd (f w (λ i h. (refl, refl, λ x. refl)) 0 (suc j + 0) refl)

  entered :
      (w : World) (s₀ : Tables) (cmd : Command) (r : Result (Unit {0}))
      → validate cmd ≡ r
      → 0 < m
      → Mirrors policy m bound s₀ (enter cmd r)
  entered w s₀ cmd (err e) v some_budget = (w, s₀, refused_alone w cmd s₀ e v)
  entered w s₀ cmd (ok u) v some_budget =
      (v, (0, refl, some_budget, (w, λ v' agree fuel total h. (s₀, rw h (ground arith)))))

  abbrev idle : Turn → World
  idle turn = record {
    interference = λ k s. s;
    env = λ k. turn.env;
    context_done = λ k. turn.context_done;
  }

  Mirrors-act :
      (s₀ : Tables) (free : Bool) (turn : Turn) (s : Tables) (t : Tally) (w : Worker)
      → 0 < m
      → Mirrors policy m bound s₀ w
      → Mirrors policy m bound s₀ (act policy free turn s t w).0
  unfolding act
  Mirrors-act s₀ true turn s t (Worker.waiting cmd) budget h =
      entered (idle turn) s₀ cmd (validate cmd) refl budget
  Mirrors-act s₀ false turn s t (Worker.waiting cmd) budget h = tt
  Mirrors-act s₀ free turn s t (Worker.posting cmd n a) budget
        (valid, (j, e, small, (w, reached))) =
      rw e (
        settled_or_on (with_turn policy m bound w (suc j) turn s) s₀ cmd j
          (post_once turn.env cmd none s).1 _ valid small
          (command-leave_attempt policy turn.context_done cmd (suc j) (record a { total = suc j })
            (post_once turn.env cmd none s).0)
          (next_round policy m bound w s₀ cmd j a turn s reached))
  Mirrors-act s₀ free turn s t (Worker.settled cmd r a) budget h = h
  Mirrors-act s₀ free turn s t (Worker.finished cmd r a) budget h = h

  keeps_Mirrors :
      (s₀ : Tables) (cmds : List Command) (run run' : Run) (free : Bool) (turn : Turn)
      → 0 < m
      → Acted policy free turn run.tables run.tally run.workers
          (run'.workers, run'.tables, run'.tally)
      → (map command_of run.workers ≡ cmds) × All (Mirrors policy m bound s₀) run.workers
      → (map command_of run'.workers ≡ cmds) × All (Mirrors policy m bound s₀) run'.workers
  keeps_Mirrors s₀ cmds run run' free turn budget x (same, h) =
      let w' = (act policy free turn run.tables run.tally x.worker).0 in
      (
        ap (map command_of) x.workers
            ∙ map-replace x.before x.worker w' x.after
                (command_of-act policy free turn run.tables run.tally x.worker)
            ∙ sym (ap (map command_of) x.split)
            ∙ same,
        rw x.workers (
            All-replace (Mirrors policy m bound s₀) x.before x.worker w' x.after
              (Mirrors-act s₀ free turn run.tables run.tally x.worker budget) (rw (sym x.split) h)),
      )

  started_Mirrors :
      (s₀ : Tables) (cmds : List Command)
      → (map command_of (map Worker.waiting cmds) ≡ cmds)
        × All (Mirrors policy m bound s₀) (map Worker.waiting cmds)
  started_Mirrors s₀ [] = (refl, tt)
  started_Mirrors s₀ (c ∷ cmds) =
      let (same, h) = started_Mirrors s₀ cmds in (ap (λ l. c ∷ l) same, (tt, h))

-- What a goroutine that is done with its call has got from it.
abbrev pub Answered : RetryPolicy → Tables → Worker → Type 0
Answered policy s₀ (Worker.waiting cmd) = Unit
Answered policy s₀ (Worker.posting cmd n a) = Unit
Answered policy s₀ (Worker.settled cmd r a) =
    (w : World) × (s : Tables) × (post_with_attempts w policy cmd s₀ ≡ some (r, a, s))
Answered policy s₀ (Worker.finished cmd r a) =
    (w : World) × (s : Tables) × (post_with_attempts w policy cmd s₀ ≡ some (r, a, s))

Mirrors-Answered :
    (policy : RetryPolicy) (m : ℕ) (bound : policy.max_attempts ≡ pos m) (s₀ : Tables) (w : Worker)
    → Mirrors policy m bound s₀ w
    → Answered policy s₀ w
Mirrors-Answered policy m bound s₀ (Worker.waiting cmd) h = tt
Mirrors-Answered policy m bound s₀ (Worker.posting cmd n a) h = tt
Mirrors-Answered policy m bound s₀ (Worker.settled cmd r a) h = h
Mirrors-Answered policy m bound s₀ (Worker.finished cmd r a) h = h

-- At every moment of a run under the policy of a service: there is one goroutine for each command, in
-- order, and one that is done with its call has the answer and the counts of a call of
-- `PostWithAttempts` alone, in a world where other transactions commit between the attempts.
pub execute-Answered :
    (p : RetryPolicy) (concurrency : ℕ) (cmds : List Command) (turns : List (ℕ × Turn)) (s : Tables)
    → let policy = new_service_with_policy p in
      let run = execute policy concurrency cmds turns s in
      (map command_of run.workers ≡ cmds) × All (Answered policy s) run.workers
unfolding execute
execute-Answered p concurrency cmds turns s =
    let policy = new_service_with_policy p in
    let (k, bound) = new_service_with_policy-budget p in
    let (same, h) =
      schedule_rule policy
        (λ run.
          (map command_of run.workers ≡ cmds) × All (Mirrors policy (suc k) bound s) run.workers)
        concurrency
        (λ run run' free turn x h.
          keeps_Mirrors policy (suc k) bound s cmds run run' free turn (omega arith) x h)
        turns (start cmds s) (started_Mirrors policy (suc k) bound s cmds) in
    (same, All-map _ (Mirrors-Answered policy (suc k) bound s) h)
