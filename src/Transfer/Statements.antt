-- ===== src/Transfer/Statements.antt =====
-- What each statement of the posting has done when it succeeds.
use realtime_payments_ledger.Prelude.{ℕ, ◌≡◌, ◌≢◌, Bool, true, false, [], ◌∷◌, ◌++◌, arith}
use realtime_payments_ledger.Prelude.Int.{ℤ, pos, ◌≤ℤ◌}
use realtime_payments_ledger.Errors.{ok}
use realtime_payments_ledger.Database.Rows.{
  Uuid, Time, Account, TransferRow, Entry, Tables, find_account, find_transfer,
}
use realtime_payments_ledger.Database.Tx.{Done, bind_result}
use realtime_payments_ledger.Database.Statements.{
  update_balances, update_accounts, insert_transfer, insert_entry, complete_transfer, complete_rows,
  is_some, key_taken,
}

pub insert_transfer-ok :
    (t : TransferRow) (s : Tables) {u : Done} {s' : Tables}
    → insert_transfer t s ≡ (ok u, s')
    → (is_some (find_transfer t.id s.transfers) ≡ false)
      × (key_taken t.idempotency_key s.transfers ≡ false)
      × (¬ (t.amount_minor ≤ℤ pos 0))
      × (t.source_account_id ≢ t.destination_account_id)
      × (s' ≡ record s { transfers = s.transfers ++ t ∷ [] })
unfolding insert_transfer bind_result
insert_transfer-ok t s h = ground arith

pub insert_entry-ok :
    (e : Entry) (s : Tables) {u : Done} {s' : Tables}
    → insert_entry e s ≡ (ok u, s')
    → (is_some (find_transfer e.transfer_id s.transfers) ≡ true)
      × (is_some (find_account e.account_id s.accounts) ≡ true)
      × (s' ≡ record s { ledger_entries = s.ledger_entries ++ e ∷ [] })
unfolding insert_entry bind_result
insert_entry-ok e s h = ground arith

pub complete_transfer-ok :
    (i : Uuid) (now : Time) (s : Tables) {u : Done} {s' : Tables}
    → complete_transfer i now s ≡ (ok u, s')
    → s' ≡ record s { transfers = complete_rows i now s.transfers }
unfolding complete_transfer bind_result
complete_transfer-ok i now s h = ground arith

pub update_accounts-ok :
    (matches : Account → Bool) (d : ℤ) (now : Time) (s : Tables) {n : ℕ} {s' : Tables}
    → update_accounts matches d now s ≡ (ok n, s')
    → (update_balances matches d now s.accounts ≡ ok (n, s'.accounts))
      × (s' ≡ record s { accounts = s'.accounts })
unfolding update_accounts bind_result
update_accounts-ok matches d now s h = ground arith
