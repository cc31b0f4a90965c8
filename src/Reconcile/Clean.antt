-- ===== src/Reconcile/Clean.antt =====
-- The audit of internal/reconcile on sound books, where its queries are answered.
use realtime_payments_ledger.Prelude.{
  ℕ, ◌≡◌, sym, ◌∙◌, true, Option, none, List, [], ◌∷◌, arith, All, Bool-cases, inl, inr,
}
use realtime_payments_ledger.Prelude.Int.{in_int64, in_int64_iff, InInt64}
use realtime_payments_ledger.Errors.{ok-injective, ok, Result-cases}
use realtime_payments_ledger.Database.Rows.{Account, Tables, sum_balances}
use realtime_payments_ledger.Database.Tx.{DriverError}
use realtime_payments_ledger.Transfer.Books.{ledger_sum, IsSound}
use realtime_payments_ledger.Reconcile.Check.{
  Baseline, report_ok, query, scan_int64, scan_mismatch, count_totals, collect_rows, order_by,
  find_balance_mismatches, check, snapshot_baseline,
}
use realtime_payments_ledger.Reconcile.Check
use realtime_payments_ledger.Reconcile.Audit.{FitsInt64, check-IsSound}
use realtime_payments_ledger.Reconcile.Exact.{query-ok, >>=_ok, order_by-All}

-- A report on sound books is clean: its queries could only be answered where the sums fit an int64.
collected-Fits :
    (baseline : Baseline) (s : Tables) (rows : List Account) {out : List Check.BalanceMismatch}
    → collect_rows (scan_mismatch baseline s) rows ≡ ok out
    → All (λ a. InInt64 (ledger_sum a.id s.ledger_entries)) rows
unfolding collect_rows
collected-Fits baseline s [] h = tt
collected-Fits baseline s (a ∷ rows) h =
    elim (Bool-cases (in_int64 (ledger_sum a.id s.ledger_entries))) [
      | inr bad ↦ absurd (ground (arith, bad))
      | inl good ↦ elim (Result-cases (collect_rows (scan_mismatch baseline s) rows)) [
        | inr (e, q) ↦ absurd (ground (arith, good, q))
        | inl (rest, q) ↦ (
          (in_int64_iff (ledger_sum a.id s.ledger_entries)).0 good,
          collected-Fits baseline s rows q,
        )
      ]
    ]

counted_total :
    (s : Tables) (totals : Check.Totals)
    → count_totals s ≡ ok totals
    → InInt64 (sum_balances s.accounts)
unfolding count_totals
counted_total s totals h = elim (Bool-cases (in_int64 (sum_balances s.accounts))) [
  | inl good ↦ (in_int64_iff (sum_balances s.accounts)).0 good
  | inr bad ↦ absurd (ground (arith, bad))
]

matched_sums :
    (baseline : Baseline) (s : Tables) (ms : List Check.BalanceMismatch)
    → find_balance_mismatches baseline s ≡ ok ms
    → All (λ a. InInt64 (ledger_sum a.id s.ledger_entries)) s.accounts
unfolding find_balance_mismatches
matched_sums baseline s ms h =
    let (rows, q, h₁) = >>=_ok _ _ h in order_by-All _ _ s.accounts (collected-Fits baseline s _ q)

-- A check that is answered is answered so without faults.
check-faultless :
    (fault : ℕ → Option DriverError) (baseline : Baseline) (s : Tables) (report : Check.Report)
    → check fault baseline (λ q. s) ≡ ok report
    → (check (λ q. none) baseline (λ q. s) ≡ ok report) × FitsInt64 s
unfolding check
check-faultless fault baseline s report h =
    let (totals, q₀, h₁) = >>=_ok _ _ h in
    let (negative, q₁, h₂) = >>=_ok _ _ h₁ in
    let (unbalanced, q₂, h₃) = >>=_ok _ _ h₂ in
    let (mismatches, q₃, h₄) = >>=_ok _ _ h₃ in
    let a₀ = query-ok (fault 0) _ q₀ in
    let a₁ = query-ok (fault 1) _ q₁ in
    let a₂ = query-ok (fault 2) _ q₂ in
    let a₃ = query-ok (fault 3) _ q₃ in
    (
      rw (a₀, a₁, a₂, a₃) h₄,
      record {
        balances = counted_total s totals a₀;
        accounts = matched_sums baseline s mismatches a₃;
      },
    )

pub check-clean :
    (fault : ℕ → Option DriverError) (baseline : Baseline) (s : Tables) (report : Check.Report)
    → IsSound baseline s
    → check fault baseline (λ q. s) ≡ ok report
    → (report_ok report ≡ true) × (report.totals ≡ Check.totals_of s)
check-clean fault baseline s report sound h =
    let (q, fits) = check-faultless fault baseline s report h in
    let (clean, q₁, good, same) = check-IsSound baseline s sound fits in
    let e : clean ≡ report = ok-injective (sym q₁ ∙ q) in rw (← e) (good, same)
