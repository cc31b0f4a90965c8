-- ===== src/Transfer/Locking.antt =====
-- Row locks in canonical order (`lockOrder`, `lockAccounts`, `missingAccountError`, `lockAccount` of
-- internal/transfer/transfer.go).
use realtime_payments_ledger.Prelude.{none, some, ◌==◌, leb, not, if◌then◌else◌}
use realtime_payments_ledger.Prelude.Int.{ℤ}
use realtime_payments_ledger.Errors.{Sentinel, Error, is, ok, err, report}
use realtime_payments_ledger.Money.{Currency}
use realtime_payments_ledger.Database.Rows.{Uuid, Account, find_account}
use realtime_payments_ledger.Database.Tx.{Tx, pure, ◌>>=◌, map_err, Env, Statement, exec}

-- `account`, the projection that the posting reads.
pub record LockedAccount : Type 0 where
  pub id : Uuid
  pub currency : Currency
  pub balance_minor : ℤ

-- `lockOrder`: the smaller UUID first.
unfoldable pub lock_order : Uuid → Uuid → Uuid × Uuid
lock_order a b = if leb a b then (a, b) else (b, a)

abbrev pub projection : Account → LockedAccount
projection a = record { id = a.id; currency = a.currency; balance_minor = a.balance_minor }

-- `SELECT … WHERE id = $1 FOR UPDATE`, scanned
abbrev pub select_account : Uuid → Tx LockedAccount
select_account i s = elim (find_account i s.accounts) [
  | none ↦ (err (Error.sentinel Sentinel.no_rows), s)
  | some a ↦ (ok (projection a), s)
]

abbrev pub scan_error : Error → Error
scan_error e = if is Sentinel.no_rows e then e else Error.wrap e

-- `lockAccount`
unfoldable pub lock_account : Env → Statement → Uuid → Tx LockedAccount
lock_account env st i = map_err scan_error (exec env st (select_account i))

-- `missingAccountError`
unfoldable pub missing_account_error : Uuid → Uuid → Error → Error
missing_account_error locked_id source_id e =
    if not (is Sentinel.no_rows e)
    then e
    else (if locked_id == source_id
        then report Sentinel.source_account_not_found
        else report Sentinel.destination_account_not_found)

-- The body of `lockAccounts`, for the two identifiers in the order in which their rows are locked.
unfoldable pub lock_in_order : Env → Uuid → Uuid → Uuid → Tx (LockedAccount × LockedAccount)
lock_in_order env first second source_id = do
  locked_first ←
      map_err (missing_account_error first source_id) (lock_account env Statement.lock_first first)
  locked_second ←
      map_err (missing_account_error second source_id)
        (lock_account env Statement.lock_second second)
  pure (
      if locked_first.id == source_id
      then (locked_first, locked_second)
      else (locked_second, locked_first))

-- `lockAccounts`: the rows of the source and of the destination, in this order.
unfoldable pub lock_accounts : Env → Uuid → Uuid → Tx (LockedAccount × LockedAccount)
lock_accounts env source_id destination_id =
    let (first, second) = lock_order source_id destination_id in
    lock_in_order env first second source_id
