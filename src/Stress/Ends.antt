-- ===== src/Stress/Ends.antt =====
-- The turns that the goroutines of `execute` still have to take, under a fair scheduler.
use realtime_payments_ledger.Prelude.{
  ℕ, zero, suc, ◌+◌, ◌-◌, ◌*◌, ◌≤◌, ◌<◌, ◌≡◌, refl, ap, ◌∙◌, ◌⊎◌, inl, inr, Bool, true, false,
  Option, none, some, List, [], ◌∷◌, ◌++◌, map, arith, ltb, length, All, sum_by, Bool-cases,
}
use realtime_payments_ledger.Prelude.Int.{pos, pos_part}
use realtime_payments_ledger.Prelude.Text.{GoString}
use realtime_payments_ledger.Errors.{Error, Result, ok, err}
use realtime_payments_ledger.Database.Rows.{Transfer, Tables}
use realtime_payments_ledger.Database.Tx.{DriverError}
use realtime_payments_ledger.Transfer.Command.{Command, validate}
use realtime_payments_ledger.Transfer.Backoff.{RetryPolicy}
use realtime_payments_ledger.Transfer.Posting.{post_once}
use realtime_payments_ledger.Transfer.Retrying.Loop.{
  Attempts, record_code, retryable_code, new_service_with_policy,
}
use realtime_payments_ledger.Transfer.Retrying.Counts.{new_service_with_policy-budget}
use realtime_payments_ledger.Stress.Execute.{
  Tally, Worker, Turn, Run, slots_taken, enter, leave_retryable, leave_error, leave_attempt, act,
  act_at, advance, schedule, start, all_finished, execute,
}

-- The goroutine has a turn in the round.
abbrev pub HasTurn : ℕ → List (ℕ × Turn) → Type 0
HasTurn i [] = ⊥
HasTurn i ((j, turn) ∷ round) = (j ≡ i) ⊎ HasTurn i round

-- A round gives every goroutine a turn.
abbrev pub Covers : ℕ → List (ℕ × Turn) → Type 0
Covers n round = (i : ℕ) → i < n → HasTurn i round

abbrev pub all_turns : List (List (ℕ × Turn)) → List (ℕ × Turn)
all_turns [] = []
all_turns (round ∷ rounds) = round ++ all_turns rounds

module _ (policy : RetryPolicy) (m : ℕ) (bound : policy.max_attempts ≡ pos m) where
  -- A bound on the turns that a goroutine still has to take.
  abbrev turns_left : Worker → ℕ
  turns_left (Worker.waiting cmd) = m + 3
  turns_left (Worker.posting cmd n a) = m - n + 2
  turns_left (Worker.settled cmd r a) = 1
  turns_left (Worker.finished cmd r a) = 0

  abbrev work : List Worker → ℕ
  work ws = sum_by turns_left ws

  left-leave_retryable :
      (c : Option DriverError) (cmd : Command) (n : ℕ) (e : Error) (a : Attempts)
      → turns_left (leave_retryable policy c cmd n e a) < m - n + 2
  left-leave_retryable none cmd n e a = ground (arith, bound)
  left-leave_retryable (some d) cmd n e a = ground (arith, bound)

  left-leave_attempt :
      (c : Option DriverError) (cmd : Command) (n : ℕ) (a : Attempts) (r : Result Transfer)
      → turns_left (leave_attempt policy c cmd n a r) < m - n + 2
  left-leave_attempt c cmd n a (ok t) = omega arith
  left-leave_attempt c cmd n a (err e) = by_code (retryable_code e)
    where
      by_code :
          (code : GoString × Bool) → turns_left (leave_error policy c cmd n code e a) < m - n + 2
      by_code (code, false) = omega arith
      by_code (code, true) = left-leave_retryable c cmd n e (record_code code a)

  left-enter : (cmd : Command) (r : Result (Unit {0})) → turns_left (enter cmd r) < m + 3
  left-enter cmd (ok u) = omega arith
  left-enter cmd (err e) = omega arith

  -- A goroutine moves on its turn, unless it is at its end, or waits and no slot is free.
  abbrev moves : Bool → Worker → Bool
  moves free (Worker.waiting cmd) = free
  moves free (Worker.posting cmd n a) = true
  moves free (Worker.settled cmd r a) = true
  moves free (Worker.finished cmd r a) = false

  left-act :
      (free : Bool) (turn : Turn) (s : Tables) (t : Tally) (w : Worker)
      → let out = act policy free turn s t w in
        ((moves free w ≡ false) × (out ≡ (w, s, t)))
        ⊎ ((moves free w ≡ true) × (turns_left out.0 < turns_left w))
  unfolding act
  left-act true turn s t (Worker.waiting cmd) = inr (refl, left-enter cmd (validate cmd))
  left-act false turn s t (Worker.waiting cmd) = inl (refl, refl)
  left-act free turn s t (Worker.posting cmd n a) = inr (
    refl,
    left-leave_attempt turn.context_done cmd n (record a { total = n })
        (post_once turn.env cmd none s).0,
  )
  left-act free turn s t (Worker.settled cmd r a) = inr (refl, omega arith)
  left-act free turn s t (Worker.finished cmd r a) = inl (refl, refl)

  -- The goroutine at an index moves on its turn.
  abbrev moves_at : Bool → ℕ → List Worker → Bool
  moves_at free i [] = false
  moves_at free zero (w ∷ ws) = moves free w
  moves_at free (suc i) (w ∷ ws) = moves_at free i ws

  left-act_at :
      (free : Bool) (turn : Turn) (s : Tables) (t : Tally) (i : ℕ) (ws : List Worker)
      → let out = act_at policy free turn s t i ws in
        ((moves_at free i ws ≡ false) × (out ≡ (ws, s, t)))
        ⊎ ((moves_at free i ws ≡ true) × (work out.0 < work ws))
  unfolding act_at
  left-act_at free turn s t i [] = inl (refl, refl)
  left-act_at free turn s t zero (w ∷ ws) = elim (left-act free turn s t w) [
    | inl (q, e) ↦ inl (q, ap (λ o. (o.0 ∷ ws, o.1, o.2)) e)
    | inr (q, h) ↦ inr (q, omega (arith, h))
  ]
  left-act_at free turn s t (suc i) (w ∷ ws) = elim (left-act_at free turn s t i ws) [
    | inl (q, e) ↦ inl (q, ap (λ o. (w ∷ o.0, o.1, o.2)) e)
    | inr (q, h) ↦ inr (q, omega (arith, h))
  ]

  -- While a goroutine holds a slot, one moves; when none does, the next that waits finds a free slot.
  mover-holds :
      (free : Bool) (ws : List Worker)
      → 1 ≤ slots_taken ws
      → (i : ℕ) × (i < length ws) × (moves_at free i ws ≡ true)
  mover-holds free [] h = absurd (omega (arith, h))
  mover-holds free (Worker.waiting cmd ∷ ws) h =
      let (i, b, q) = mover-holds free ws h in (suc i, omega (arith, b), q)
  mover-holds free (Worker.posting cmd n a ∷ ws) h = (0, omega arith, refl)
  mover-holds free (Worker.settled cmd r a ∷ ws) h = (0, omega arith, refl)
  mover-holds free (Worker.finished cmd r a ∷ ws) h =
      let (i, b, q) = mover-holds free ws h in (suc i, omega (arith, b), q)

  mover-waits :
      (ws : List Worker)
      → slots_taken ws ≡ 0
      → 1 ≤ work ws
      → (i : ℕ) × (i < length ws) × (moves_at true i ws ≡ true)
  mover-waits [] none_taken h = absurd (omega (arith, h))
  mover-waits (Worker.waiting cmd ∷ ws) none_taken h = (0, omega arith, refl)
  mover-waits (Worker.posting cmd n a ∷ ws) none_taken h = absurd (omega (arith, none_taken))
  mover-waits (Worker.settled cmd r a ∷ ws) none_taken h = absurd (omega (arith, none_taken))
  mover-waits (Worker.finished cmd r a ∷ ws) none_taken h =
      let (i, b, q) = mover-waits ws none_taken (omega (arith, h)) in (suc i, omega (arith, b), q)

  module _ (concurrency : ℕ) where
    abbrev free_slot : Run → Bool
    free_slot run = ltb (slots_taken run.workers) concurrency

    mover :
        (run : Run)
        → 1 ≤ concurrency
        → 1 ≤ work run.workers
        → (i : ℕ) × (i < length run.workers) × (moves_at (free_slot run) i run.workers ≡ true)
    mover run some_slot h = elim (Bool-cases (ltb 0 (slots_taken run.workers))) [
      | inl e ↦ mover-holds (free_slot run) run.workers (ground (arith, e))
      | inr e ↦
          let none_taken : slots_taken run.workers ≡ 0 = ground (arith, e) in
          let free : free_slot run ≡ true = ground (arith, none_taken, some_slot) in
          rw free (mover-waits run.workers none_taken h)
    ]

    left-advance :
        (i : ℕ) (turn : Turn) (run : Run)
        → ((moves_at (free_slot run) i run.workers ≡ false)
            × (advance policy concurrency (i, turn) run ≡ run))
          ⊎ (work (advance policy concurrency (i, turn) run).workers < work run.workers)
    unfolding advance
    left-advance i turn run =
        elim (left-act_at (free_slot run) turn run.tables run.tally i run.workers) [
          | inl (q, e) ↦ inl (
            q,
            ap
                (λ (o : List Worker × Tables × Tally). record {
                  workers = o.0;
                  tables = o.1;
                  tally = o.2;
                })
                e,
          )
          | inr (q, h) ↦ inr h
        ]

    schedule-work :
        (turns : List (ℕ × Turn)) (run : Run)
        → work (schedule policy concurrency turns run).workers ≤ work run.workers
    unfolding schedule
    schedule-work [] run = omega arith
    schedule-work ((i, turn) ∷ turns) run = elim (left-advance i turn run) [
      | inl (q, e) ↦ rw (schedule, e) (schedule-work turns run)
      | inr h ↦ omega (arith, h, schedule-work turns (advance policy concurrency (i, turn) run))
    ]

    -- A goroutine that can move and has a turn in the round: it moves then, or another has moved before.
    round-work :
        (round : List (ℕ × Turn)) (run : Run) (i : ℕ)
        → moves_at (free_slot run) i run.workers ≡ true
        → HasTurn i round
        → work (schedule policy concurrency round run).workers < work run.workers
    unfolding schedule
    round-work [] run i can has = elim has [ ]
    round-work ((j, turn) ∷ round) run i can has = elim (left-advance j turn run) [
      | inr h ↦ omega (arith, h, schedule-work round (advance policy concurrency (j, turn) run))
      | inl (q, e) ↦
          rw (schedule, e)
            (elim has [ inl same ↦ absurd (cc) | inr later ↦ round-work round run i can later ])
    ]

    length-act_at :
        (free : Bool) (turn : Turn) (s : Tables) (t : Tally) (i : ℕ) (ws : List Worker)
        → length (act_at policy free turn s t i ws).0 ≡ length ws
    unfolding act_at
    length-act_at free turn s t i [] = refl
    length-act_at free turn s t zero (w ∷ ws) = refl
    length-act_at free turn s t (suc i) (w ∷ ws) = ap suc (length-act_at free turn s t i ws)

    length-schedule :
        (turns : List (ℕ × Turn)) (run : Run)
        → length (schedule policy concurrency turns run).workers ≡ length run.workers
    unfolding schedule advance
    length-schedule [] run = refl
    length-schedule ((i, turn) ∷ turns) run =
        length-schedule turns (advance policy concurrency (i, turn) run)
        ∙ length-act_at (free_slot run) turn run.tables run.tally i run.workers

    schedule-append :
        (xs ys : List (ℕ × Turn)) (run : Run)
        → schedule policy concurrency (xs ++ ys) run
          ≡ schedule policy concurrency ys (schedule policy concurrency xs run)
    unfolding schedule
    schedule-append [] ys run = refl
    schedule-append (x ∷ xs) ys run = schedule-append xs ys (advance policy concurrency x run)

    rounds-work :
        (n : ℕ) (rounds : List (List (ℕ × Turn))) (run : Run)
        → 1 ≤ concurrency
        → length run.workers ≡ n
        → All (Covers n) rounds
        → work run.workers ≤ length rounds
        → work (schedule policy concurrency (all_turns rounds) run).workers ≡ 0
    unfolding schedule
    rounds-work n [] run some_slot len covers h = omega (arith, h)
    rounds-work n (round ∷ rounds) run some_slot len (covered, covers) h =
        let next = schedule policy concurrency round run in
        rw (schedule-append round (all_turns rounds) run) (
          rounds-work n rounds next some_slot (length-schedule round run ∙ len) covers
            (elim (Bool-cases (ltb 0 (work run.workers))) [
              | inl e ↦
                  let (i, b, q) = mover run some_slot (ground (arith, e)) in
                  omega (arith, h, round-work round run i q (covered i (omega (arith, b, len))))
              | inr e ↦ omega (arith, schedule-work round run, nothing_left e)
            ]))
      where
        nothing_left : {k : ℕ} → ltb 0 k ≡ false → k ≡ 0
        nothing_left e = ground (arith, e)

  no_work-all_finished : (ws : List Worker) → work ws ≡ 0 → all_finished ws ≡ true
  no_work-all_finished [] h = refl
  no_work-all_finished (Worker.waiting cmd ∷ ws) h = absurd (omega (arith, h))
  no_work-all_finished (Worker.posting cmd n a ∷ ws) h = absurd (omega (arith, h))
  no_work-all_finished (Worker.settled cmd r a ∷ ws) h = absurd (omega (arith, h))
  no_work-all_finished (Worker.finished cmd r a ∷ ws) h = no_work-all_finished ws (omega (arith, h))

  started-work :
      (cmds : List Command)
      → (work (map Worker.waiting cmds) ≡ length cmds * (m + 3))
        × (length (map Worker.waiting cmds) ≡ length cmds)
  started-work [] = omega arith
  started-work (c ∷ cmds) = let (x, y) = started-work cmds in (omega (arith, x), ap suc y)

-- Under the policy of a service, with a slot or more: once every goroutine has had a turn in each of as
-- many rounds as there are commands, times three more than the budget, in any order and whatever fails,
-- all of them are at their end.
pub execute-ends :
    (p : RetryPolicy) (concurrency : ℕ) (cmds : List Command) (rounds : List (List (ℕ × Turn)))
    (s : Tables)
    → 1 ≤ concurrency
    → All (Covers (length cmds)) rounds
    → let policy = new_service_with_policy p in
      length cmds * (pos_part policy.max_attempts + 3) ≤ length rounds
      → all_finished (execute policy concurrency cmds (all_turns rounds) s).workers ≡ true
unfolding execute
execute-ends p concurrency cmds rounds s some_slot covers enough =
    let policy = new_service_with_policy p in
    let (k, bound) = new_service_with_policy-budget p in
    let (w, n) = started-work policy (suc k) bound cmds in
    no_work-all_finished policy (suc k) bound _ (
      rounds-work policy (suc k) bound concurrency (length cmds) rounds (start cmds s) some_slot n
        covers (omega (arith, w, enough, ap (λ b. length cmds * (pos_part b + 3)) bound)))
