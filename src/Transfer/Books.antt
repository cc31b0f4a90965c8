-- ===== src/Transfer/Books.antt =====
-- The invariant of the committed tables: what docs/LEDGER_DESIGN.md calls the books being right.
use realtime_payments_ledger.Prelude.{◌≡◌, ◌≢◌, true, false, List, [], ◌∷◌, All}
use realtime_payments_ledger.Prelude.Int.{ℤ, pos, neg_ℤ, ◌+ℤ◌, ◌≤ℤ◌, InInt64}
use realtime_payments_ledger.Database.Rows.{
  Uuid, Status, TransferRow, Entry, Tables, find_transfer, sum_amounts, of_transfer, of_account,
}
use realtime_payments_ledger.Database.Statements.{is_some, key_taken}
use realtime_payments_ledger.Transfer.Balances.{IsDistinct}

-- A transfer row is completed, moves a positive amount between two accounts, and its entries are the
-- debit of the source and the credit of the destination, in the transfer's currency.
pub record IsPosted (es : List Entry) (t : TransferRow) : Type 0 where
  pub debit : Entry
  pub credit : Entry
  pub completed : t.status ≡ Status.completed
  pub positive : ¬ (t.amount_minor ≤ℤ pos 0)
  pub different : t.source_account_id ≢ t.destination_account_id
  pub two_entries : of_transfer t.id es ≡ debit ∷ credit ∷ []
  pub debits_source : debit.account_id ≡ t.source_account_id
  pub debits_amount : debit.amount_minor ≡ neg_ℤ t.amount_minor
  pub debits_currency : debit.currency ≡ t.currency
  pub credits_destination : credit.account_id ≡ t.destination_account_id
  pub credits_amount : credit.amount_minor ≡ t.amount_minor
  pub credits_currency : credit.currency ≡ t.currency

-- No idempotency key stands in two rows: a row's key is free in the rows before it.
abbrev pub KeysDistinct : List TransferRow → Type 0
KeysDistinct [] = Unit
KeysDistinct (t ∷ rest) = (key_taken t.idempotency_key rest ≡ false) × KeysDistinct rest

abbrev pub ledger_sum : Uuid → List Entry → ℤ
ledger_sum i es = sum_amounts (of_account i es)

-- `baseline` is the money that the entries do not explain, as in internal/reconcile.
pub record IsSound (baseline : Uuid → ℤ) (s : Tables) : Type 0 where
  pub distinct : IsDistinct s.accounts
  pub in_range : All (λ a. (pos 0 ≤ℤ a.balance_minor) × InInt64 a.balance_minor) s.accounts
  pub explained :
      All (λ a. a.balance_minor ≡ baseline a.id +ℤ ledger_sum a.id s.ledger_entries) s.accounts
  pub posted : All (IsPosted s.ledger_entries) s.transfers
  pub linked : All (λ e. is_some (find_transfer e.transfer_id s.transfers) ≡ true) s.ledger_entries
  pub balanced : sum_amounts s.ledger_entries ≡ pos 0
  pub keys : KeysDistinct s.transfers
