-- ===== src/Stress/Recorded.antt =====
-- The transfers that the goroutines of `execute` report, and the rows of the table.
use realtime_payments_ledger.Prelude.{
  ℕ, ◌+◌, ◌≤◌, ◌≡◌, refl, sym, ap, ◌∙◌, Bool, true, false, Option, none, some, List, [], ◌∷◌, ◌++◌,
  map, arith, All, All-here, All-replace, inl, inr, if◌then◌else◌, ltb, sum_by, sum_by-append,
  sum_by-replace,
}
use realtime_payments_ledger.Prelude.Int.{InInt64}
use realtime_payments_ledger.Prelude.Text.{GoString}
use realtime_payments_ledger.Errors.{Error, Result, ok, err}
use realtime_payments_ledger.Database.Rows.{Transfer, TransferRow, Tables}
use realtime_payments_ledger.Database.Tx.{Commit, DriverError}
use realtime_payments_ledger.Transfer.Command.{Command, validate}
use realtime_payments_ledger.Transfer.Backoff.{RetryPolicy}
use realtime_payments_ledger.Transfer.Posting.{post_once, new_row, completed_transfer}
use realtime_payments_ledger.Transfer.Posted.{Posted}
use realtime_payments_ledger.Database.Statements.{completed_row}
use realtime_payments_ledger.Transfer.Atomic.{
  Posted-Effect, post_once-Outcome, refused, posted, unreported,
}
use realtime_payments_ledger.Transfer.Retrying.Loop.{Attempts, retryable_code}
use realtime_payments_ledger.Stress.Execute.{
  Tally, Worker, Turn, Run, enter, leave_error, leave_attempt, slots_taken, act, advance, schedule,
  start, execute,
}
use realtime_payments_ledger.Stress.Sound.{command_of-act, Amount, started}
use realtime_payments_ledger.Stress.Turns.{Acted, act_at-Acted}

-- The turns whose attempt commits, if it does, without an answer.
abbrev pub loses_report : Commit → ℕ
loses_report (Commit.report_lost d) = 1
loses_report c = 0

abbrev pub lost_reports : List (ℕ × Turn) → ℕ
lost_reports turns = sum_by (λ (t : ℕ × Turn). loses_report t.1.env.commit) turns

module _ (p : Transfer → Bool) where
  abbrev pub one : Transfer → ℕ
  one t = if p t then 1 else 0

  -- The rows of the transfers that pass a test.
  abbrev pub recorded : Tables → ℕ
  recorded s = sum_by (λ (r : TransferRow). one r.transfer) s.transfers

  abbrev pub answer : Result Transfer → ℕ
  answer (ok t) = one t
  answer (err e) = 0

  -- The goroutines that have got such a transfer from their call.
  abbrev pub success : Worker → ℕ
  success (Worker.settled cmd r a) = answer r
  success (Worker.finished cmd r a) = answer r
  success w = 0

  abbrev pub successes : List Worker → ℕ
  successes ws = sum_by success ws

  success-leave_error :
      (policy : RetryPolicy) (c : Option DriverError) (cmd : Command) (n : ℕ)
      (code : GoString × Bool) (e : Error) (a : Attempts)
      → success (leave_error policy c cmd n code e a) ≡ 0
  success-leave_error policy c cmd n (code, false) e a = refl
  success-leave_error policy none cmd n (code, true) e a = ground arith
  success-leave_error policy (some d) cmd n (code, true) e a = ground arith

  success-leave_attempt :
      (policy : RetryPolicy) (c : Option DriverError) (cmd : Command) (n : ℕ) (a : Attempts)
      (r : Result Transfer)
      → success (leave_attempt policy c cmd n a r) ≡ answer r
  success-leave_attempt policy c cmd n a (ok t) = refl
  success-leave_attempt policy c cmd n a (err e) =
      success-leave_error policy c cmd n (retryable_code e) e a

  successes-start : (cmds : List Command) → successes (map Worker.waiting cmds) ≡ 0
  successes-start [] = refl
  successes-start (c ∷ cmds) = omega (arith, successes-start cmds)

  -- So many more rows, for so many more successes and a lost report.
  abbrev Matches : Tables → ℕ → ℕ → Tables → ℕ → Type 0
  Matches s before lost s' after =
      (recorded s + after ≤ recorded s' + before)
      × (recorded s' + before ≤ recorded s + after + lost)

  recorded-Posted :
      (turn : Turn) (cmd : Command) (s s' : Tables)
      → InInt64 cmd.amount_minor
      → Posted turn.env cmd none s s'
      → recorded s' ≡ recorded s + one (completed_transfer turn.env cmd)
  recorded-Posted turn cmd s s' word m =
      let row = completed_row turn.env.now (new_row turn.env cmd none) in
      let count : TransferRow → ℕ = λ r. one r.transfer in
      ap (sum_by count) (Posted-Effect turn.env cmd none s s' word m).transfers
      ∙ sum_by-append count s.transfers (row ∷ [])
      ∙ omega arith

  attempt-Matches :
      (turn : Turn) (cmd : Command) (s : Tables)
      → InInt64 cmd.amount_minor
      → let o = post_once turn.env cmd none s in
        Matches s 0 (loses_report turn.env.commit) o.1 (answer o.0)
  attempt-Matches turn cmd s word = elim (post_once-Outcome turn.env cmd none s) [
    | refused e q ↦ rw q (omega arith, omega arith)
    | posted s' q m ↦ rw (q, recorded-Posted turn cmd s s' word m) (omega arith, omega arith)
    | unreported d s' c q m ↦
        rw (q, c, recorded-Posted turn cmd s s' word m) (ground arith, ground arith)
  ]

  module _ (policy : RetryPolicy) where
    act-Matches :
        (free : Bool) (turn : Turn) (s : Tables) (t : Tally) (w : Worker)
        → Amount w
        → let o = act policy free turn s t w in
          Matches s (success w) (loses_report turn.env.commit) o.1 (success o.0)
    unfolding act
    act-Matches true turn s t (Worker.waiting cmd) word = by_validation (validate cmd)
      where
        by_validation :
            (v : Result (Unit {0}))
            → Matches s 0 (loses_report turn.env.commit) s (success (enter cmd v))
        by_validation (ok u) = (omega arith, omega arith)
        by_validation (err e) = (omega arith, omega arith)
    act-Matches false turn s t (Worker.waiting cmd) word = (omega arith, omega arith)
    act-Matches free turn s t (Worker.posting cmd n a) word =
        rw
          (success-leave_attempt policy turn.context_done cmd n (record a { total = n })
            (post_once turn.env cmd none s).0)
          (attempt-Matches turn cmd s word)
    act-Matches free turn s t (Worker.settled cmd r a) word = (omega arith, omega arith)
    act-Matches free turn s t (Worker.finished cmd r a) word = (omega arith, omega arith)

    Acted-Matches :
        (run run' : Run) (free : Bool) (turn : Turn)
        → Acted policy free turn run.tables run.tally run.workers
            (run'.workers, run'.tables, run'.tally)
        → All Amount run.workers
        → All Amount run'.workers
          × Matches run.tables
              (successes run.workers)
              (loses_report turn.env.commit)
              run'.tables
              (successes run'.workers)
    Acted-Matches run run' free turn m words =
        let w' = (act policy free turn run.tables run.tally m.worker).0 in
        let here : All Amount (m.before ++ m.worker ∷ m.after) = rw (sym m.split) words in
        let (less, more) =
          act-Matches free turn run.tables run.tally m.worker
            (All-here Amount m.before m.worker m.after here) in
        let moved = sum_by-replace success m.before m.worker w' m.after in
        let same = command_of-act policy free turn run.tables run.tally m.worker in
        (
          rw m.workers (All-replace Amount m.before m.worker w' m.after (λ h. rw same h) here),
          (
            rw (m.workers, m.tables, m.split) (omega (arith, less, moved)),
            rw (m.workers, m.tables, m.split) (omega (arith, more, moved)),
          ),
        )

    schedule-Matches :
        (concurrency : ℕ) (turns : List (ℕ × Turn)) (run : Run)
        → All Amount run.workers
        → let run' = schedule policy concurrency turns run in
          Matches run.tables
            (successes run.workers)
            (lost_reports turns)
            run'.tables
            (successes run'.workers)
    unfolding schedule advance
    schedule-Matches concurrency [] run words = (omega arith, omega arith)
    schedule-Matches concurrency ((i, turn) ∷ turns) run words =
        let free = ltb (slots_taken run.workers) concurrency in
        let next = advance policy concurrency (i, turn) run in
        let (words', (less, more)) : All Amount next.workers
            × Matches run.tables (successes run.workers) (loses_report turn.env.commit) next.tables
                (successes next.workers) =
          elim (act_at-Acted policy free turn run.tables run.tally i run.workers) [
            | inl q ↦ rw q (words, (omega arith, omega arith))
            | inr m ↦ Acted-Matches run next free turn m words
          ] in
        let (less', more') = schedule-Matches concurrency turns next words' in
        (omega (arith, less, less'), omega (arith, more, more'))

-- For int64 amounts, at every moment of a run, whatever the schedule and the faults: of the transfers
-- that pass any test, the table has all that it had and one more for each goroutine whose call answered
-- such a transfer, and beyond these at most one for each attempt whose commit lost its report.
pub execute-recorded :
    (policy : RetryPolicy) (concurrency : ℕ) (cmds : List Command) (turns : List (ℕ × Turn))
    (s : Tables) (p : Transfer → Bool)
    → All (λ c. InInt64 c.amount_minor) cmds
    → let run = execute policy concurrency cmds turns s in
      (recorded p s + successes p run.workers ≤ recorded p run.tables)
      × (recorded p run.tables ≤ recorded p s + successes p run.workers + lost_reports turns)
unfolding execute
execute-recorded policy concurrency cmds turns s p words =
    let (less, more) =
      schedule-Matches p policy concurrency turns (start cmds s) (started cmds words) in
    let none_yet = successes-start p cmds in
    (omega (arith, less, none_yet), omega (arith, more, none_yet))
