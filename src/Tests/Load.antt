-- ===== src/Tests/Load.antt =====
-- Runs of the load test over two funded accounts.
use realtime_payments_ledger.Prelude.{
  ℕ, zero, suc, ◌+◌, ◌*◌, ◌≤◌, ◌≡◌, refl, inl, inr, true, none, List, [], ◌∷◌, All, arith, length,
}
use realtime_payments_ledger.Prelude.Int.{pos_part}
use realtime_payments_ledger.Database.Tx.{DriverError, Commit}
use realtime_payments_ledger.Transfer.Command.{Command}
use realtime_payments_ledger.Transfer.Backoff.{default_retry_policy}
use realtime_payments_ledger.Transfer.Retrying.Loop.{new_service_with_policy}
use realtime_payments_ledger.Stress.Execute.{Turn, all_finished, execute}
use realtime_payments_ledger.Stress.Tallied.{Tallied, execute-Tallied}
use realtime_payments_ledger.Stress.Recorded.{recorded, successes, lost_reports, execute-recorded}
use realtime_payments_ledger.Stress.Retries.{execute-retries}
use realtime_payments_ledger.Stress.Ends.{Covers, all_turns, execute-ends}
use realtime_payments_ledger.Tests.Fixtures.{funded, payment, calm, contended}

abbrev quiet : Turn
quiet = record { env = calm; context_done = none }

-- The first attempt loses a conflict.
abbrev conflict : Turn
conflict = record { env = contended; context_done = none }

-- Two goroutines that share one slot.
abbrev commands : List Command
commands = payment ∷ payment ∷ []

abbrev turns : List (ℕ × Turn)
turns = (0, quiet) ∷ (1, quiet) ∷ (0, conflict) ∷ (0, quiet) ∷ (0, quiet) ∷ (1, quiet) ∷ []

execute-Tallied_example :
    let run = execute default_retry_policy 1 commands turns funded in Tallied run.workers run.tally
execute-Tallied_example = execute-Tallied default_retry_policy 1 commands turns funded

-- The schedule in which the report of the first commit is lost.
abbrev unreported : Turn
unreported = record {
  env = record calm { commit = Commit.report_lost DriverError.context_deadline_exceeded };
  context_done = none;
}

abbrev schedule : List (ℕ × Turn)
schedule = (0, quiet) ∷ (0, unreported) ∷ (0, quiet) ∷ (1, quiet) ∷ (1, quiet) ∷ []

execute-recorded_example :
    let run = execute default_retry_policy 1 commands schedule funded in
    (recorded (λ t. true) funded + successes (λ t. true) run.workers
      ≤ recorded (λ t. true) run.tables)
    × (recorded (λ t. true) run.tables
        ≤ recorded (λ t. true) funded + successes (λ t. true) run.workers + lost_reports schedule)
execute-recorded_example =
    execute-recorded default_retry_policy 1 commands schedule funded (λ t. true)
      (omega arith, (omega arith, tt))

execute-retries_example :
    let policy = new_service_with_policy default_retry_policy in
    let t = (execute policy 1 commands turns funded).tally in
    (t.total_attempts ≤ 2 * pos_part policy.max_attempts)
    × (t.serialization_retries + t.deadlock_retries ≤ t.total_attempts)
    × (t.total_attempts ≤ t.serialization_retries + t.deadlock_retries + 2)
execute-retries_example = execute-retries default_retry_policy 1 commands turns funded

-- Rounds in which the second goroutine always goes first.
abbrev round : List (ℕ × Turn)
round = (1, conflict) ∷ (0, conflict) ∷ []

round-Covers : Covers 2 round
round-Covers zero h = inr (inl refl)
round-Covers (suc zero) h = inl refl
round-Covers (suc (suc i)) h = absurd (omega (arith, h))

abbrev rounds : ℕ → List (List (ℕ × Turn))
rounds zero = []
rounds (suc n) = round ∷ rounds n

rounds-Covers : (n : ℕ) → All (Covers 2) (rounds n)
rounds-Covers zero = tt
rounds-Covers (suc n) = (round-Covers, rounds-Covers n)

length-rounds : (n : ℕ) → length (rounds n) ≡ n
length-rounds zero = refl
length-rounds (suc n) = omega (arith, length-rounds n)

execute-ends_example :
    all_finished
      (execute
        (new_service_with_policy default_retry_policy)
        1
        commands
        (all_turns (rounds 46))
        funded).workers
    ≡ true
unfolding new_service_with_policy
execute-ends_example =
    execute-ends default_retry_policy 1 commands (rounds 46) funded (omega arith) (rounds-Covers 46)
      (omega (arith, length-rounds 46))
