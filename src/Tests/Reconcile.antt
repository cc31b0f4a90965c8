-- ===== src/Tests/Reconcile.antt =====
-- The audit of funded books.
use realtime_payments_ledger.Prelude.{ℕ, ◌≡◌, refl, true, none, some, [], arith}
use realtime_payments_ledger.Prelude.Int.{ℤ, pos, ◌+ℤ◌, wrap64}
use realtime_payments_ledger.Errors.{ok}
use realtime_payments_ledger.Database.Rows.{Status, TransferRow, Entry}
use realtime_payments_ledger.Reconcile.Check.{
  Report, check, report_ok, totals_of, count_totals, find_negative_balances,
  find_unbalanced_transfers, find_balance_mismatches, collect_rows, order_by, insert_by,
}
use realtime_payments_ledger.Reconcile.Audit.{FitsInt64, check-IsSound}
use realtime_payments_ledger.Reconcile.Exact.{Audited, check-Audited}
use realtime_payments_ledger.Tests.Fixtures.{funded, funding, funded-IsSound, usd}

funded-FitsInt64 : FitsInt64 funded
unfolding ◌+ℤ◌
funded-FitsInt64 = record { balances = omega arith; accounts = omega arith }

check-IsSound_example :
    (report : Report) × (check (λ q. none) funding (λ q. funded) ≡ ok report)
    × (report_ok report ≡ true)
    × (report.totals ≡ totals_of funded)
check-IsSound_example = check-IsSound funding funded funded-IsSound funded-FitsInt64

check-Audited_example : Audited funding funded
unfolding check report_ok count_totals find_negative_balances find_unbalanced_transfers
    find_balance_mismatches collect_rows order_by insert_by ◌+ℤ◌ wrap64
check-Audited_example =
    check-Audited (λ q. none) funding funded
      (record {
        totals = totals_of funded;
        negative_balances = [];
        balance_mismatches = [];
        unbalanced_transfers = [];
      })
      tt refl refl

abbrev row : TransferRow
row = record {
  transfer = record {
    id = 77;
    source_account_id = 2;
    destination_account_id = 1;
    amount_minor = pos 30;
    currency = usd;
    status = Status.completed;
    created_at = 1;
    completed_at = some 1;
  };
  idempotency_key = none;
  request_fingerprint = none;
}

abbrev leg : ℕ → ℤ → Entry
leg i n = record {
  id = i;
  transfer_id = 77;
  account_id = i;
  amount_minor = n;
  currency = usd;
  created_at = 1;
}
