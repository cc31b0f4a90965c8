-- ===== src/Transfer/Posting.antt =====
-- The posting itself: `post`, `assertBalanced` and `postOnce` of internal/transfer/transfer.go.
use realtime_payments_ledger.Prelude.{
  ℕ, Bool, not, Option, none, some, ◌==◌, ◌&&◌, if◌then◌else◌, length, [],
}
use realtime_payments_ledger.Prelude.Int.{ℤ, pos, neg_ℤ, wrap64, ltb_ℤ, leb_ℤ, eqb_ℤ, in_int64}
use realtime_payments_ledger.Prelude.Text.{GoString, str_eq}
use realtime_payments_ledger.Errors.{Sentinel, Error, Result, ok, err, report}
use realtime_payments_ledger.Database.Rows.{
  Uuid, Account, Status, Transfer, TransferRow, Entry, Tables, sum_amounts, of_transfer,
}
use realtime_payments_ledger.Database.Tx.{
  Tx, Done, pure, ◌>>=◌, ◌>>◌, fail_if, map_err, Env, Commit, Statement, exec, driver_error,
  violation,
}
use realtime_payments_ledger.Database.Statements.{
  update_accounts, insert_transfer, insert_entry, complete_transfer, deferred_checks,
  integrity_constraint_violation,
}
use realtime_payments_ledger.Transfer.Command.{Command}
use realtime_payments_ledger.Transfer.Locking.{LockedAccount, lock_accounts}

-- `idempotencyStamp`; a nil stamp is `none`.
pub record Stamp : Type 0 where
  pub key : GoString
  pub fingerprint : GoString

abbrev pub key_or_nil : Option Stamp → Option GoString
key_or_nil none = none
key_or_nil (some s) = some s.key

abbrev pub fingerprint_or_nil : Option Stamp → Option GoString
fingerprint_or_nil none = none
fingerprint_or_nil (some s) = some s.fingerprint

-- `SELECT COALESCE(SUM(amount_minor), 0), COUNT(*)`; a sum that is no `int64` cannot be scanned.
abbrev select_totals : Uuid → Tx (ℤ × ℕ)
select_totals i s =
    let es = of_transfer i s.ledger_entries in
    (if in_int64 (sum_amounts es) then ok (sum_amounts es, length es) else err Error.opaque, s)

-- `assertBalanced`
unfoldable pub assert_balanced : Env → Uuid → Tx (Done)
assert_balanced env i = do
  totals ← map_err Error.wrap (exec env Statement.verify (select_totals i))
  fail_if (not (totals.1 == 2)) (report Sentinel.not_balanced)
  fail_if (not (eqb_ℤ totals.0 (pos 0))) (report Sentinel.not_balanced)

-- The transfer as `post` builds it before the insert, with `created_at` from `RETURNING`.
abbrev pub new_transfer : Env → Command → Transfer
new_transfer env cmd = record {
  id = env.transfer_id;
  source_account_id = cmd.source_account_id;
  destination_account_id = cmd.destination_account_id;
  amount_minor = cmd.amount_minor;
  currency = cmd.currency;
  status = Status.pending;
  created_at = env.now;
  completed_at = none;
}

abbrev pub new_row : Env → Command → Option Stamp → TransferRow
new_row env cmd stamp = record {
  transfer = new_transfer env cmd;
  idempotency_key = key_or_nil stamp;
  request_fingerprint = fingerprint_or_nil stamp;
}

-- The transfer as `post` returns it.
abbrev pub completed_transfer : Env → Command → Transfer
completed_transfer env cmd = record (new_transfer env cmd) {
  status = Status.completed;
  completed_at = some env.now;
}

abbrev pub debit_entry : Env → Command → Entry
debit_entry env cmd = record {
  id = env.debit_entry_id;
  transfer_id = env.transfer_id;
  account_id = cmd.source_account_id;
  amount_minor = wrap64 (neg_ℤ cmd.amount_minor);
  currency = cmd.currency;
  created_at = env.now;
}

abbrev pub credit_entry : Env → Command → Entry
credit_entry env cmd = record {
  id = env.credit_entry_id;
  transfer_id = env.transfer_id;
  account_id = cmd.destination_account_id;
  amount_minor = cmd.amount_minor;
  currency = cmd.currency;
  created_at = env.now;
}

-- The `WHERE` clauses of the two updates.
abbrev pub holds_enough : Command → Account → Bool
holds_enough cmd a = (a.id == cmd.source_account_id) && leb_ℤ cmd.amount_minor a.balance_minor

abbrev pub is_destination : Command → Account → Bool
is_destination cmd a = a.id == cmd.destination_account_id

-- The checks of `post` on the two locked rows.
unfoldable pub check_accounts : Command → LockedAccount × LockedAccount → Tx (Done)
check_accounts cmd (source, destination) = do
  fail_if (not (str_eq source.currency cmd.currency)) (report Sentinel.currency_mismatch)
  fail_if (not (str_eq destination.currency cmd.currency)) (report Sentinel.currency_mismatch)
  fail_if (ltb_ℤ source.balance_minor cmd.amount_minor) (report Sentinel.insufficient_funds)

-- The statements of `post` that write, in order.
unfoldable pub move_money : Env → Command → Option Stamp → Tx Transfer
move_money env cmd stamp = do
  map_err Error.wrap (exec env Statement.insert_transfer (insert_transfer (new_row env cmd stamp)))
  debited ← map_err Error.wrap (
      exec env Statement.debit
        (update_accounts (holds_enough cmd) (neg_ℤ cmd.amount_minor) env.now))
  fail_if (not (debited == 1)) (report Sentinel.insufficient_funds)
  credited ←
      map_err Error.wrap
        (exec env Statement.credit (update_accounts (is_destination cmd) cmd.amount_minor env.now))
  fail_if (not (credited == 1)) Error.opaque
  map_err Error.wrap (
      exec env Statement.insert_entries
        (insert_entry (debit_entry env cmd) >> insert_entry (credit_entry env cmd)))
  assert_balanced env env.transfer_id
  map_err Error.wrap (exec env Statement.complete (complete_transfer env.transfer_id env.now))
  pure (completed_transfer env cmd)

-- `post`
unfoldable pub post : Env → Command → Option Stamp → Tx Transfer
post env cmd stamp = do
  locked ← lock_accounts env cmd.source_account_id cmd.destination_account_id
  check_accounts cmd locked
  move_money env cmd stamp

-- COMMIT of the view `work` over the committed tables `s`, once the deferred constraints hold.
abbrev pub end_commit : Commit → Tables → Tables → Transfer → Result Transfer × Tables
end_commit Commit.committed s work t = (ok t, work)
end_commit (Commit.rolled_back d) s work t = (err (Error.wrap (driver_error d)), s)
end_commit (Commit.report_lost d) s work t = (err (Error.wrap (driver_error d)), work)

-- `tx.Commit`: the deferred constraint triggers run first.
unfoldable pub commit_tx : Env → Tables → Tables → Transfer → Result Transfer × Tables
commit_tx env s work t =
    if deferred_checks work env.transfer_id
    then (err (Error.wrap (violation integrity_constraint_violation [])), s)
    else end_commit env.commit s work t

abbrev pub finish : Env → Tables → Result Transfer × Tables → Result Transfer × Tables
finish env s (ok t, work) = commit_tx env s work t
finish env s (err e, work) = (err e, s)

-- `postOnce`: one transaction over the committed tables, rolled back on every error.
unfoldable pub post_once : Env → Command → Option Stamp → Tables → Result Transfer × Tables
post_once env cmd stamp s = elim (env.fault Statement.begin_tx) [
  | some d ↦ (err (Error.wrap (driver_error d)), s)
  | none ↦ finish env s (post env cmd stamp s)
]
