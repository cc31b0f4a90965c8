-- ===== src/Stress/Sound.antt =====
-- The tables under the turns of `execute`.
use realtime_payments_ledger.Prelude.{
  ℕ, ◌≡◌, refl, ◌∙◌, sym, Bool, true, false, List, [], ◌∷◌, map, All, All-here, All-replace, arith,
  ◌++◌, none, some, Option,
}
use realtime_payments_ledger.Prelude.Int.{ℤ, InInt64}
use realtime_payments_ledger.Prelude.Text.{GoString}
use realtime_payments_ledger.Errors.{Result, ok, err, Error}
use realtime_payments_ledger.Database.Rows.{Uuid, Transfer, Tables, sum_balances}
use realtime_payments_ledger.Database.Tx.{DriverError}
use realtime_payments_ledger.Transfer.Command.{Command, validate}
use realtime_payments_ledger.Transfer.Backoff.{RetryPolicy}
use realtime_payments_ledger.Transfer.Posting.{post_once}
use realtime_payments_ledger.Transfer.Books.{IsSound}
use realtime_payments_ledger.Transfer.Atomic.{post_once-IsSound}
use realtime_payments_ledger.Transfer.Retrying.Loop.{Attempts, record_code, retryable_code}
use realtime_payments_ledger.Stress.Execute.{
  Tally, Worker, Turn, Run, enter, leave_retryable, leave_error, leave_attempt, act, start, execute,
}
use realtime_payments_ledger.Stress.Turns.{Acted, schedule_rule}

abbrev pub command_of : Worker → Command
command_of (Worker.waiting cmd) = cmd
command_of (Worker.posting cmd n a) = cmd
command_of (Worker.settled cmd r a) = cmd
command_of (Worker.finished cmd r a) = cmd

module _ (policy : RetryPolicy) where
  command-leave_retryable :
      (c : Option DriverError) (cmd : Command) (n : ℕ) (e : Error) (a : Attempts)
      → command_of (leave_retryable policy c cmd n e a) ≡ cmd
  command-leave_retryable none cmd n e a = ground arith
  command-leave_retryable (some d) cmd n e a = ground arith

  command-leave_error :
      (c : Option DriverError) (cmd : Command) (n : ℕ) (code : GoString × Bool) (e : Error)
      (a : Attempts)
      → command_of (leave_error policy c cmd n code e a) ≡ cmd
  command-leave_error c cmd n (code, false) e a = refl
  command-leave_error c cmd n (code, true) e a =
      command-leave_retryable c cmd n e (record_code code a)

  pub command-leave_attempt :
      (c : Option DriverError) (cmd : Command) (n : ℕ) (a : Attempts) (r : Result Transfer)
      → command_of (leave_attempt policy c cmd n a r) ≡ cmd
  command-leave_attempt c cmd n a (ok t) = refl
  command-leave_attempt c cmd n a (err e) = command-leave_error c cmd n (retryable_code e) e a

  command-enter : (cmd : Command) (r : Result (Unit {0})) → command_of (enter cmd r) ≡ cmd
  command-enter cmd (ok u) = refl
  command-enter cmd (err e) = refl

  -- No turn changes the command of a goroutine.
  pub command_of-act :
      (free : Bool) (turn : Turn) (s : Tables) (t : Tally) (w : Worker)
      → command_of (act policy free turn s t w).0 ≡ command_of w
  unfolding act
  command_of-act true turn s t (Worker.waiting cmd) = command-enter cmd (validate cmd)
  command_of-act false turn s t (Worker.waiting cmd) = refl
  command_of-act free turn s t (Worker.posting cmd n a) =
      command-leave_attempt turn.context_done cmd n (record a { total = n })
        (post_once turn.env cmd none s).0
  command_of-act free turn s t (Worker.settled cmd r a) = refl
  command_of-act free turn s t (Worker.finished cmd r a) = refl

abbrev pub Amount : Worker → Type 0
Amount w = InInt64 (command_of w).amount_minor

pub started :
    (cmds : List Command)
    → All (λ c. InInt64 c.amount_minor) cmds
    → All Amount (map Worker.waiting cmds)
started [] h = tt
started (c ∷ cmds) h = (h.0, started cmds h.1)

-- The books are sound, the money is all there, and the commands still to be posted are in range.
abbrev Kept : (Uuid → ℤ) → Tables → Run → Type 0
Kept baseline s₀ run =
    IsSound baseline run.tables
    × (sum_balances run.tables.accounts ≡ sum_balances s₀.accounts)
    × All Amount run.workers

module _ (policy : RetryPolicy) (baseline : Uuid → ℤ) where
  act-IsSound :
      (free : Bool) (turn : Turn) (s : Tables) (t : Tally) (w : Worker)
      → Amount w
      → IsSound baseline s
      → let s' = (act policy free turn s t w).1 in
        IsSound baseline s' × (sum_balances s'.accounts ≡ sum_balances s.accounts)
  unfolding act
  act-IsSound free turn s t (Worker.waiting cmd) word sound = (sound, refl)
  act-IsSound free turn s t (Worker.posting cmd n a) word sound =
      post_once-IsSound turn.env cmd none s baseline word sound
  act-IsSound free turn s t (Worker.settled cmd r a) word sound = (sound, refl)
  act-IsSound free turn s t (Worker.finished cmd r a) word sound = (sound, refl)

  kept :
      (s₀ : Tables) (run run' : Run) (free : Bool) (turn : Turn)
      → Acted policy free turn run.tables run.tally run.workers
          (run'.workers, run'.tables, run'.tally)
      → Kept baseline s₀ run
      → Kept baseline s₀ run'
  kept s₀ run run' free turn m (sound, sum, words) =
      let w' = (act policy free turn run.tables run.tally m.worker).0 in
      let here : All Amount (m.before ++ m.worker ∷ m.after) = rw (sym m.split) words in
      let word = All-here Amount m.before m.worker m.after here in
      let (sound', sum') = act-IsSound free turn run.tables run.tally m.worker word sound in
      let same = command_of-act policy free turn run.tables run.tally m.worker in
      (
        rw m.tables sound',
        rw m.tables (sum' ∙ sum),
        rw m.workers (All-replace Amount m.before m.worker w' m.after (λ h. rw same h) here),
      )

  -- For int64 amounts and sound books: at every moment of a run, whatever the schedule and the faults,
  -- the books are sound and the sum of all balances is what it was before.
  pub execute-IsSound :
      (concurrency : ℕ) (cmds : List Command) (turns : List (ℕ × Turn)) (s : Tables)
      → All (λ c. InInt64 c.amount_minor) cmds
      → IsSound baseline s
      → let s' = (execute policy concurrency cmds turns s).tables in
        IsSound baseline s' × (sum_balances s'.accounts ≡ sum_balances s.accounts)
  unfolding execute
  execute-IsSound concurrency cmds turns s words sound =
      let h =
        schedule_rule policy (Kept baseline s) concurrency (kept s) turns (start cmds s)
          (sound, refl, started cmds words) in
      (h.0, h.1)
