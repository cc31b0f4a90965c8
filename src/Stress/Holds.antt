-- ===== src/Stress/Holds.antt =====
-- What a run of the load test reports on books that are in order.
use realtime_payments_ledger.Prelude.{
  ℕ, zero, suc, ◌+◌, ◌≡◌, ◌↔◌, refl, sym, ap, ◌∙◌, Bool, true, Option, none, some, List, [], ◌∷◌,
  arith, ==_iff, All, Option-cases, inl, inr, length, sum_by,
}
use mathlib.Core.Option.{some-injective}
use realtime_payments_ledger.Prelude.Int.{ℤ, pos, pos_part, eqb_ℤ, eqb_ℤ_iff}
use realtime_payments_ledger.Errors.{ok-injective, ok, Result-cases}
use realtime_payments_ledger.Money.{Currency}
use realtime_payments_ledger.Database.Rows.{Uuid, Tables, sum_balances}
use realtime_payments_ledger.Transfer.Command.{Command}
use realtime_payments_ledger.Transfer.Books.{IsSound}
use realtime_payments_ledger.Reconcile.Check.{
  Baseline, is_empty, report_ok, query, scan_int64, scan_mismatch, count_totals, collect_rows,
  order_by, find_balance_mismatches, check, snapshot_baseline,
}
use realtime_payments_ledger.Reconcile.Check
use realtime_payments_ledger.Reconcile.Clean.{check-clean}
use realtime_payments_ledger.Stress.Commands.{Options, between, command_at, commands_from}
use realtime_payments_ledger.Stress.Execute.{Tally, Worker, all_finished, is_finished, execute}
use realtime_payments_ledger.Stress.Execute
use realtime_payments_ledger.Stress.Setup.{Flags}
use realtime_payments_ledger.Stress.Counters.{one}
use realtime_payments_ledger.Stress.Run.{
  Summary, summary_ok, Reading, read_each, read_balances, Outside, violations_of, summary, assess,
  run,
}

between-amount :
    (opt : Options) (currency : Currency) (from to : Option Uuid) (c : Command)
    → between opt currency from to ≡ some c
    → c.amount_minor ≡ opt.amount
between-amount opt currency none to c h = absurd (cc)
between-amount opt currency (some from) none c h = absurd (cc)
between-amount opt currency (some from) (some to) c h =
    sym (ap (λ (d : Command). d.amount_minor) (some-injective _ c h))

-- The commands of a workload are as many as the attempts, each of the amount.
pub commands_from-made :
    (opt : Options) (currency : Currency) (accounts : List Uuid) (left i : ℕ) (cmds : List Command)
    → commands_from opt currency accounts left i ≡ some cmds
    → (length cmds ≡ left) × All (λ c. c.amount_minor ≡ opt.amount) cmds
unfolding commands_from command_at
commands_from-made opt currency accounts zero i cmds h =
    let e : [] ≡ cmds = some-injective [] cmds h in rw (← e) (refl, tt)
commands_from-made opt currency accounts (suc left) i cmds h =
    elim (Option-cases (command_at opt currency accounts i)) [
      | inl n ↦ absurd (ground (arith, n))
      | inr (c, q) ↦ elim (Option-cases (commands_from opt currency accounts left (i + 1))) [
        | inl n ↦ absurd (ground (arith, q, n))
        | inr (rest, q₁) ↦
            let e : c ∷ rest ≡ cmds = ground (arith, q, q₁) in
            let (n, amounts) = commands_from-made opt currency accounts left (i + 1) rest q₁ in
            rw (← e) (ap suc n, (between-amount opt currency _ _ c q, amounts))
      ]
    ]

-- What a result says of a run on books in order: nothing is wrong with the books, every attempt is
-- accounted for, and the run is a success exactly if no failure was unexpected.
pub record Holds (opt : Flags) (r : Summary) (success : Bool) : Type 0 where
  pub conserved : r.conservation_held ≡ true
  pub negative : r.negative_balances ≡ 0
  pub violations : r.ledger_invariant_violations ≡ 0
  pub reconciled : r.reconciliation_ok ≡ true
  pub attempts : r.attempts ≡ pos_part opt.attempts
  pub accounted :
      r.tally.successful + r.tally.insufficient_funds + r.tally.exhausted_retries
        + r.tally.unexpected_failures
      ≡ pos_part opt.attempts
  pub verdict : (success ≡ true) ↔ (r.tally.unexpected_failures ≡ 0)

pub finished-length :
    (ws : List Worker) → all_finished ws ≡ true → sum_by (λ w. one (is_finished w)) ws ≡ length ws
finished-length [] h = refl
finished-length (Worker.finished cmd r a ∷ ws) h = omega (arith, finished-length ws h)
finished-length (Worker.waiting cmd ∷ ws) h = absurd (cc)
finished-length (Worker.posting cmd n a ∷ ws) h = absurd (cc)
finished-length (Worker.settled cmd r a ∷ ws) h = absurd (cc)

pub read_total :
    (f : Reading) (ids : List Uuid) (s : Tables) (out : List (Uuid × ℤ) × ℤ)
    → read_balances f ids s ≡ ok out
    → out.1 ≡ sum_balances s.accounts
unfolding read_balances
read_total f ids s out h = elim (Result-cases (read_each f.account ids s)) [
  | inr (e, q) ↦ absurd (ground (arith, q))
  | inl (each, q) ↦ elim (Result-cases (query f.sum (scan_int64 (sum_balances s.accounts)))) [
    | inr (e, q₁) ↦ absurd (cc (rw (q, q₁) at h))
    | inl (u, q₁) ↦
        let e : (each, sum_balances s.accounts) ≡ out = ok-injective (rw (q, q₁) at h) in
        rw (← e) refl
  ]
]

is_empty-length : {A : Type 0} (xs : List A) → is_empty xs ≡ true → length xs ≡ 0
is_empty-length [] h = refl
is_empty-length (x ∷ xs) h = absurd (cc)

report_ok-clean :
    (r : Check.Report)
    → report_ok r ≡ true
    → (length r.negative_balances ≡ 0) × (violations_of r ≡ 0)
unfolding report_ok
report_ok-clean r h =
    let negative : is_empty r.negative_balances ≡ true = ground (arith, h) in
    let mismatches : is_empty r.balance_mismatches ≡ true = ground (arith, h) in
    let unbalanced : is_empty r.unbalanced_transfers ≡ true = ground (arith, h) in
    let zero_sum : eqb_ℤ r.total_ledger_minor (pos 0) ≡ true = ground (arith, h) in
    (
      is_empty-length r.negative_balances negative,
      rw zero_sum (
          omega (
            arith,
            is_empty-length r.balance_mismatches mismatches,
            is_empty-length r.unbalanced_transfers unbalanced,
          )),
    )

summary_ok_iff :
    (r : Summary)
    → r.negative_balances ≡ 0
    → r.ledger_invariant_violations ≡ 0
    → r.conservation_held ≡ true
    → r.reconciliation_ok ≡ true
    → (summary_ok r ≡ true) ↔ (r.tally.unexpected_failures ≡ 0)
unfolding summary_ok
summary_ok_iff r negative violations conserved reconciled =
    rw (negative, violations, conserved, reconciled) (==_iff r.tally.unexpected_failures 0)

module _ (out : Outside) (opt : Flags) (currency : Currency) (ids : List Uuid) (baseline : Baseline)
    (before : List (Uuid × ℤ) × ℤ) (cmds : List Command)
    (made : length cmds ≡ pos_part opt.attempts) where
  pub assess-Holds :
      (run : Execute.Run) (r : Summary)
      → IsSound baseline run.tables
      → before.1 ≡ sum_balances run.tables.accounts
      → run.tally.successful + run.tally.insufficient_funds + run.tally.exhausted_retries
          + run.tally.unexpected_failures
        ≡ pos_part opt.attempts
      → assess out opt currency ids baseline before cmds run ≡ ok r
      → Holds opt r (summary_ok r)
  unfolding assess
  assess-Holds run r sound total accounted h =
      elim (Result-cases (read_balances out.after ids run.tables)) [
        | inr (e, q) ↦ absurd (cc (rw q at h))
        | inl (after, q) ↦ elim (Result-cases (check out.audit baseline (λ q. run.tables))) [
          | inr (e, q₁) ↦ absurd (cc (rw (q, q₁) at h))
          | inl (report, q₁) ↦
              let e : summary out opt currency ids baseline before cmds run.tally after report ≡ r =
                ok-injective (rw (q, q₁) at h) in
              let (good, same) = check-clean out.audit baseline run.tables report sound q₁ in
              let (negative, violations) = report_ok-clean report good in
              let conserved : eqb_ℤ before.1 after.1 ≡ true =
                (eqb_ℤ_iff before.1 after.1).1
                  (total ∙ sym (read_total out.after ids run.tables after q)) in
              rw (← e) (record {
                conserved = conserved;
                negative = negative;
                violations = violations;
                reconciled = good;
                attempts = made;
                accounted = accounted;
                verdict =
                    summary_ok_iff
                      (summary out opt currency ids baseline before cmds run.tally after report)
                      negative violations conserved good;
              })
        ]
      ]
