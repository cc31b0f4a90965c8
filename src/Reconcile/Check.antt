-- ===== src/Reconcile/Check.antt =====
-- internal/reconcile/reconcile.go: the queries of `Check`, and the report. A query that the database
-- fails is a fault of the outside; a sum that does not fit an int64 fails the scan.
use realtime_payments_ledger.Prelude.{
  ℕ, suc, ◌+◌, Bool, true, false, ◌&&◌, ◌||◌, not, Option, none, some, List, [], ◌∷◌, ltb, leb,
  ◌==◌, if◌then◌else◌, length, select,
}
use realtime_payments_ledger.Prelude.Int.{ℤ, pos, ◌+ℤ◌, ◌-ℤ◌, neg_ℤ, ltb_ℤ, eqb_ℤ, in_int64, wrap64}
use realtime_payments_ledger.Prelude.Text.{str_eq}
use realtime_payments_ledger.Errors.{Error, Result, ok, err, ◌>>=◌, ◌>>◌, reject_if}
use realtime_payments_ledger.Database.Rows.{
  Uuid, Account, TransferRow, Entry, Tables, is_pending, is_completed, sum_amounts, sum_balances,
  of_transfer, of_account,
}
use realtime_payments_ledger.Database.Tx.{DriverError, driver_error}

-- An identifier that is not in the map has 0.
abbrev pub Baseline : Type 0
Baseline = Uuid → ℤ

pub record NegativeBalance : Type 0 where
  pub account_id : Uuid
  pub balance_minor : ℤ

pub record BalanceMismatch : Type 0 where
  pub account_id : Uuid
  pub stored_minor : ℤ
  pub baseline_minor : ℤ
  pub ledger_minor : ℤ
  pub expected_minor : ℤ

-- `BalanceMismatch.Difference`
unfoldable pub difference : BalanceMismatch → ℤ
difference m = wrap64 (m.stored_minor -ℤ m.expected_minor)

pub record TransferProblem : Type 0 where
  pub transfer_id : Uuid
  pub entry_count : ℕ
  pub entry_sum_minor : ℤ
  pub debit_count : ℕ
  pub credit_count : ℕ
  pub currency_mismatches : ℕ
  pub foreign_accounts : ℕ
  pub wrong_debit_amount : ℕ
  pub wrong_credit_amount : ℕ

pub record Totals : Type 0 where
  pub accounts : ℕ
  pub completed_transfers : ℕ
  pub pending_transfers : ℕ
  pub ledger_entries : ℕ
  pub total_balance_minor : ℤ
  pub total_ledger_minor : ℤ

pub record Report : Type 0 where
  pub totals : Totals
  pub open totals use *
  pub negative_balances : List NegativeBalance
  pub balance_mismatches : List BalanceMismatch
  pub unbalanced_transfers : List TransferProblem

abbrev pub is_empty : {A : Type 0} → List A → Bool
is_empty [] = true
is_empty (x ∷ xs) = false

-- `Report.OK`
unfoldable pub report_ok : Report → Bool
report_ok r =
    is_empty r.negative_balances
    && is_empty r.balance_mismatches
    && is_empty r.unbalanced_transfers
    && eqb_ℤ r.total_ledger_minor (pos 0)

-- `Report.Violations`
unfoldable pub violations : Report → ℕ
violations r =
    let n =
      length r.negative_balances + length r.balance_mismatches + length r.unbalanced_transfers in
    if not (eqb_ℤ r.total_ledger_minor (pos 0)) then suc n else n

-- `ORDER BY`
unfoldable pub insert_by : {A : Type 0} → (A → Uuid) → A → List A → List A
insert_by key x [] = x ∷ []
insert_by key x (y ∷ ys) =
    let rest = insert_by key x ys in if leb (key x) (key y) then x ∷ y ∷ ys else y ∷ rest

unfoldable pub order_by : {A : Type 0} → (A → Uuid) → List A → List A
order_by key [] = []
order_by key (x ∷ xs) = insert_by key x (order_by key xs)

-- `pgx.CollectRows`: the first row that does not scan fails it.
unfoldable pub collect_rows : {A B : Type 0} → (A → Result B) → List A → Result (List B)
collect_rows scan [] = ok []
collect_rows scan (x ∷ xs) = scan x >>= λ y. collect_rows scan xs >>= λ ys. ok (y ∷ ys)

-- The scan of a sum into an int64.
abbrev pub scan_int64 : ℤ → Result (Unit {0})
scan_int64 n = reject_if (not (in_int64 n)) Error.opaque

abbrev pub query : {A : Type 0} → Option DriverError → Result A → Result A
query none r = r
query (some d) r = err (Error.wrap (driver_error d))

-- The row that `countTotals` reads.
abbrev pub totals_of : Tables → Totals
totals_of s = record {
  accounts = length s.accounts;
  completed_transfers = length (select (λ (t : TransferRow). is_completed t.status) s.transfers);
  pending_transfers = length (select (λ (t : TransferRow). is_pending t.status) s.transfers);
  ledger_entries = length s.ledger_entries;
  total_balance_minor = sum_balances s.accounts;
  total_ledger_minor = sum_amounts s.ledger_entries;
}

-- `countTotals`
unfoldable pub count_totals : Tables → Result Totals
count_totals s =
    scan_int64 (sum_balances s.accounts)
    >> scan_int64 (sum_amounts s.ledger_entries)
    >> ok (totals_of s)

abbrev pub is_negative : Account → Bool
is_negative a = ltb_ℤ a.balance_minor (pos 0)

abbrev pub negative_balance : Account → NegativeBalance
negative_balance a = record { account_id = a.id; balance_minor = a.balance_minor }

-- `findNegativeBalances`
unfoldable pub find_negative_balances : Tables → Result (List NegativeBalance)
find_negative_balances s =
    collect_rows (λ a. ok (negative_balance a))
      (order_by (λ (a : Account). a.id) (select is_negative s.accounts))

abbrev pub count : (Entry → Bool) → List Entry → ℕ
count p es = length (select p es)

-- The conditions that the query counts.
abbrev pub other_currency : TransferRow → Entry → Bool
other_currency t e = not (str_eq e.currency t.currency)

abbrev pub is_foreign : TransferRow → Entry → Bool
is_foreign t e =
    not (e.account_id == t.source_account_id) && not (e.account_id == t.destination_account_id)

abbrev pub is_wrong_debit : TransferRow → Entry → Bool
is_wrong_debit t e =
    (e.account_id == t.source_account_id) && not (eqb_ℤ e.amount_minor (neg_ℤ t.amount_minor))

abbrev pub is_wrong_credit : TransferRow → Entry → Bool
is_wrong_credit t e =
    (e.account_id == t.destination_account_id) && not (eqb_ℤ e.amount_minor t.amount_minor)

-- The LEFT JOIN gives a transfer without entries one row of NULLs, whose currency is distinct from the
-- transfer's.
abbrev pub count_currency_mismatches : TransferRow → List Entry → ℕ
count_currency_mismatches t [] = 1
count_currency_mismatches t (e ∷ es) = count (other_currency t) (e ∷ es)

-- The group of a transfer in `per_transfer`, from its entries.
abbrev pub group_of : TransferRow → List Entry → TransferProblem
group_of t es = record {
  transfer_id = t.id;
  entry_count = length es;
  entry_sum_minor = sum_amounts es;
  debit_count = count (λ e. ltb_ℤ e.amount_minor (pos 0)) es;
  credit_count = count (λ e. ltb_ℤ (pos 0) e.amount_minor) es;
  currency_mismatches = count_currency_mismatches t es;
  foreign_accounts = count (is_foreign t) es;
  wrong_debit_amount = count (is_wrong_debit t) es;
  wrong_credit_amount = count (is_wrong_credit t) es;
}

-- The `WHERE` of the outer query.
unfoldable pub is_offending : TransferProblem → Bool
is_offending p =
    not (p.entry_count == 2)
    || not (eqb_ℤ p.entry_sum_minor (pos 0))
    || not (p.debit_count == 1)
    || not (p.credit_count == 1)
    || ltb 0 p.currency_mismatches
    || ltb 0 p.foreign_accounts
    || ltb 0 p.wrong_debit_amount
    || ltb 0 p.wrong_credit_amount

abbrev pub is_unbalanced : Tables → TransferRow → Bool
is_unbalanced s t =
    is_completed t.status && is_offending (group_of t (of_transfer t.id s.ledger_entries))

abbrev pub scan_problem : Tables → TransferRow → Result TransferProblem
scan_problem s t =
    let p = group_of t (of_transfer t.id s.ledger_entries) in scan_int64 p.entry_sum_minor >> ok p

-- `findUnbalancedTransfers`
unfoldable pub find_unbalanced_transfers : Tables → Result (List TransferProblem)
find_unbalanced_transfers s =
    collect_rows (scan_problem s)
      (order_by (λ (t : TransferRow). t.id) (select (is_unbalanced s) s.transfers))

abbrev pub mismatch_of : Baseline → Tables → Account → BalanceMismatch
mismatch_of baseline s a =
    let ledger = sum_amounts (of_account a.id s.ledger_entries) in
    record {
      account_id = a.id;
      stored_minor = a.balance_minor;
      baseline_minor = baseline a.id;
      ledger_minor = ledger;
      expected_minor = wrap64 (baseline a.id +ℤ ledger);
    }

abbrev pub scan_mismatch : Baseline → Tables → Account → Result BalanceMismatch
scan_mismatch baseline s a =
    scan_int64 (sum_amounts (of_account a.id s.ledger_entries)) >> ok (mismatch_of baseline s a)

abbrev pub differs : BalanceMismatch → Bool
differs m = not (eqb_ℤ m.stored_minor m.expected_minor)

-- `findBalanceMismatches`
unfoldable pub find_balance_mismatches : Baseline → Tables → Result (List BalanceMismatch)
find_balance_mismatches baseline s =
    collect_rows (scan_mismatch baseline s) (order_by (λ (a : Account). a.id) s.accounts) >>= λ ms.
    ok (select differs ms)

-- `Check`, where `fault` says which of its four queries fail. Each query reads a snapshot of its own.
unfoldable pub check : (ℕ → Option DriverError) → Baseline → (ℕ → Tables) → Result Report
check fault baseline s = do
  totals ← query (fault 0) (count_totals (s 0))
  negative ← query (fault 1) (find_negative_balances (s 1))
  unbalanced ← query (fault 2) (find_unbalanced_transfers (s 2))
  mismatches ← query (fault 3) (find_balance_mismatches baseline (s 3))
  ok (record {
    totals = totals;
    negative_balances = negative;
    balance_mismatches = mismatches;
    unbalanced_transfers = unbalanced;
  })

abbrev pub unexplained : Tables → Account → Uuid × ℤ
unexplained s a = (a.id, a.balance_minor -ℤ sum_amounts (of_account a.id s.ledger_entries))

abbrev pub scan_unexplained : Tables → Account → Result (Uuid × ℤ)
scan_unexplained s a = let (i, n) = unexplained s a in scan_int64 n >> ok (i, n)

-- A map filled row by row, where later rows win.
abbrev pub put_all : List (Uuid × ℤ) → Baseline → Baseline
put_all [] baseline = baseline
put_all ((i, n) ∷ rows) baseline = put_all rows (λ j. if j == i then n else baseline j)

-- `SnapshotBaseline`
unfoldable pub snapshot_baseline : Option DriverError → Tables → Result Baseline
snapshot_baseline fault s = query fault (collect_rows (scan_unexplained s) s.accounts) >>= λ rows.
    ok (put_all rows (λ i. pos 0))
