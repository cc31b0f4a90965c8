-- ===== src/Stress/Whole.antt =====
-- A run of the load test, from its flags to its result.
use realtime_payments_ledger.Prelude.{
  ◌≡◌, sym, ap, subst, ◌∙◌, Bool, Option, none, some, List, All-map, Bool-cases, Option-cases, inl,
  inr, length, length-map,
}
use realtime_payments_ledger.Prelude.Int.{ℤ, pos, pos_part, ltb_ℤ, InInt64}
use realtime_payments_ledger.Errors.{Error, Result, ok, err, Result-cases}
use realtime_payments_ledger.Money.{Currency}
use realtime_payments_ledger.Database.Rows.{Uuid, Tables}
use realtime_payments_ledger.Transfer.Command.{Command}
use realtime_payments_ledger.Transfer.Backoff.{default_retry_policy}
use realtime_payments_ledger.Transfer.Books.{IsSound}
use realtime_payments_ledger.Reconcile.Check.{Baseline, snapshot_baseline}
use realtime_payments_ledger.Stress.Commands.{build_commands}
use realtime_payments_ledger.Stress.Execute.{all_finished, execute}
use realtime_payments_ledger.Stress.Setup.{Flags, setup_accounts}
use realtime_payments_ledger.Stress.Sound.{command_of, execute-IsSound}
use realtime_payments_ledger.Stress.Tallied.{execute-Tallied}
use realtime_payments_ledger.Stress.Answered.{execute-Answered}
use realtime_payments_ledger.Stress.Opened.{
  InOrder, setup_accounts-InOrder, snapshot_baseline-IsSound,
}
use realtime_payments_ledger.Stress.Run.{
  Summary, summary_ok, Outside, Exit, read_balances, policy_of_service, workload, concurrency_of,
  assess, emitted, after_execute, with_commands, with_accounts, prepared, run,
}
use realtime_payments_ledger.Stress.Holds.{
  commands_from-made, Holds, finished-length, read_total, assess-Holds,
}

module _ (out : Outside) (opt : Flags) (word : InInt64 opt.amount) where
  module _ (currency : Currency) (ids : List Uuid) where
    emitted-reported :
        (baseline : Baseline) (before : List (Uuid × ℤ) × ℤ) (cmds : List Command)
        (e : Option Error) (res : Result Summary) (r : Summary) (success : Bool)
        → emitted out opt currency ids baseline before cmds e res ≡ Exit.reported r success
        → (res ≡ ok r) × (success ≡ summary_ok r)
    emitted-reported baseline before cmds e (err d) r success h = absurd (cc)
    emitted-reported baseline before cmds (some e) (ok x) r success h = absurd (cc)
    emitted-reported baseline before cmds none (ok x) r success h =
        let (same, verdict) : (x ≡ r) × (summary_ok x ≡ success) = (cc, cc) in
        (ap ok same, sym verdict ∙ ap summary_ok same)

    -- From the reading of the balances before the workload on.
    workload-Holds :
        (baseline : Baseline) (before : List (Uuid × ℤ) × ℤ) (cmds : List Command) (s : Tables)
        (r : Summary) (success : Bool)
        → IsSound baseline s
        → build_commands (workload out opt) currency ids ≡ some cmds
        → read_balances out.before ids s ≡ ok before
        → after_execute out opt currency ids baseline before cmds
            (execute policy_of_service (pos_part (concurrency_of out opt)) cmds out.turns s)
          ≡ Exit.reported r success
        → Holds opt r success
    unfolding build_commands
    workload-Holds baseline before cmds s r success sound made read h =
        let ended =
          execute policy_of_service (pos_part (concurrency_of out opt)) cmds out.turns s in
        let (n, amounts) = commands_from-made (workload out opt) currency ids _ 0 cmds made in
        let words = All-map cmds (λ c e. subst InInt64 (sym e) word) amounts in
        let (sound', sum) =
          execute-IsSound policy_of_service baseline _ cmds out.turns s words sound in
        let same = (execute-Answered default_retry_policy _ cmds out.turns s).0 in
        let tallied = execute-Tallied policy_of_service _ cmds out.turns s in
        elim (Bool-cases (all_finished ended.workers)) [
          | inr going ↦ absurd (cc (rw going at h))
          | inl finished ↦
              let (q, verdict) =
                emitted-reported baseline before cmds out.emit
                  (assess out opt currency ids baseline before cmds ended) r success
                  (rw finished at h) in
              rw verdict (
                assess-Holds out opt currency ids baseline before cmds n ended r sound'
                  (read_total out.before ids s before read ∙ sym sum)
                  (tallied.accounted
                    ∙ finished-length ended.workers finished
                    ∙ sym (length-map command_of ended.workers)
                    ∙ ap length same
                    ∙ n)
                  q)
        ]

    commands-Holds :
        (s : Tables) (r : Summary) (success : Bool)
        → InOrder s
        → with_commands out opt currency ids s (build_commands (workload out opt) currency ids)
          ≡ Exit.reported r success
        → Holds opt r success
    commands-Holds s r success order h =
        elim (Option-cases (build_commands (workload out opt) currency ids)) [
          | inl n ↦ absurd (cc (rw n at h))
          | inr (cmds, made) ↦ elim (Result-cases (snapshot_baseline out.snapshot s)) [
            | inr (e, q) ↦ absurd (cc (rw (made, q) at h))
            | inl (baseline, q) ↦ elim (Result-cases (read_balances out.before ids s)) [
              | inr (e, q₁) ↦ absurd (cc (rw (made, q, q₁) at h))
              | inl (before, q₁) ↦
                  workload-Holds baseline before cmds s r success
                    (snapshot_baseline-IsSound out.snapshot s baseline order q) made q₁
                    (rw (made, q, q₁) at h)
            ]
          ]
        ]

  accounts-Holds :
      (currency : Currency) (o : Result (List Uuid) × Tables) (r : Summary) (success : Bool)
      → InOrder o.1
      → with_accounts out opt currency o ≡ Exit.reported r success
      → Holds opt r success
  accounts-Holds currency (err e, s) r success order h = absurd (cc)
  accounts-Holds currency (ok ids, s) r success order h =
      commands-Holds currency ids s r success order h

  -- For an int64 amount, over books in order but for where their money is from: a run that comes to a
  -- result, whatever the schedule, the faults and the interleaving, reports conserved balances, none of
  -- them negative, no violation and a clean reconciliation. It has made as many transfers as were asked
  -- for, each counted under one of the four outcomes, and it succeeds exactly if none failed
  -- unexpectedly.
  pub run-Holds :
      (s : Tables) (r : Summary) (success : Bool)
      → InOrder s
      → run out opt s ≡ Exit.reported r success
      → Holds opt r success
  unfolding run
  run-Holds s r success order h = elim (Bool-cases (ltb_ℤ opt.attempts (pos 1))) [
    | inl few ↦ absurd (cc (rw few at h))
    | inr enough ↦ elim (Result-cases (prepared out opt)) [
      | inr (e, q) ↦ absurd (cc (rw (enough, q) at h))
      | inl (c, q) ↦
          accounts-Holds c (setup_accounts out.parse_uuid out.opening opt c s) r success
            (setup_accounts-InOrder out.parse_uuid out.opening opt c s order) (rw (enough, q) at h)
    ]
  ]
