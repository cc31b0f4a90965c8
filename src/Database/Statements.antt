-- ===== src/Database/Statements.antt =====
-- The SQL statements of the posting, with the constraints that the migrations put on the rows.
use realtime_payments_ledger.Prelude.{
  ℕ, suc, Option, none, some, Bool, true, false, not, ◌&&◌, ◌||◌, List, [], ◌∷◌, ◌++◌, ◌==◌, leb,
  ltb, if◌then◌else◌, length,
}
use realtime_payments_ledger.Prelude.Int.{ℤ, pos, ◌+ℤ◌, leb_ℤ, eqb_ℤ, in_int64}
use realtime_payments_ledger.Prelude.Text.{GoString, bytes, str_eq}
use realtime_payments_ledger.Errors.{Sentinel, Error, Result, ok, err}
use realtime_payments_ledger.Errors
use realtime_payments_ledger.Money.{Currency, has_foreign_rune}
use realtime_payments_ledger.Database.Rows.{
  Uuid, Time, Account, Status, is_pending, is_completed, TransferRow, Entry, Tables, find_by,
  find_account, find_transfer, sum_amounts, of_transfer,
}
use realtime_payments_ledger.Database.Tx.{Tx, Done, done, ◌>>◌, fail_if, violation}

abbrev pub check_violation : GoString
check_violation = bytes "23514"

abbrev pub unique_violation : GoString
unique_violation = bytes "23505"

abbrev pub foreign_key_violation : GoString
foreign_key_violation = bytes "23503"

abbrev pub numeric_value_out_of_range : GoString
numeric_value_out_of_range = bytes "22003"

abbrev pub integrity_constraint_violation : GoString
integrity_constraint_violation = bytes "23000"

abbrev pub idempotency_key_unique : GoString
idempotency_key_unique = bytes "transfers_idempotency_key_unique"

-- `UPDATE accounts SET balance_minor = balance_minor + d WHERE …`: the number of rows affected, and the
-- rows. BIGINT arithmetic that overflows is an error, and so is a negative balance (000001); the
-- trigger stamps `updated_at`.
module _ (matches : Account → Bool) (d : ℤ) (now : Time) where
  unfoldable pub update_balances : List Account → Result (ℕ × List Account)
  update_balances [] = ok (0, [])
  update_balances (a ∷ rest) = Errors.◌>>=◌ (update_balances rest) λ r.
      if matches a
      then (if in_int64 (a.balance_minor +ℤ d)
          then (if leb_ℤ (pos 0) (a.balance_minor +ℤ d)
              then ok (
                suc r.0,
                record a { balance_minor = a.balance_minor +ℤ d; updated_at = now } ∷ r.1,
              )
              else err (violation check_violation (bytes "accounts_balance_non_negative")))
          else err (violation numeric_value_out_of_range []))
      else ok (r.0, a ∷ r.1)

abbrev store_accounts : Tables → Result (ℕ × List Account) → Result ℕ × Tables
store_accounts s (ok (n, rows)) = (ok n, record s { accounts = rows })
store_accounts s (err e) = (err e, s)

unfoldable pub update_accounts : (Account → Bool) → ℤ → Time → Tx ℕ
update_accounts matches d now s = store_accounts s (update_balances matches d now s.accounts)

abbrev pub is_some {ℓ} : {A : Type ℓ} → Option A → Bool
is_some none = false
is_some (some a) = true

abbrev pub has_key : GoString → TransferRow → Bool
has_key k t = elim t.idempotency_key [ none ↦ false | some j ↦ str_eq j k ]

-- Whether another row holds the key; NULLs never collide.
abbrev pub key_taken : Option GoString → List TransferRow → Bool
key_taken none rows = false
key_taken (some k) rows = is_some (find_by (has_key k) rows)

-- `length` of a text in UTF-8: each character has one byte that does not continue it.
unfoldable pub char_length : GoString → ℕ
char_length [] = 0
char_length (b ∷ s) = let n = char_length s in if leb 128 b && ltb b 192 then n else suc n

abbrev pub bad_key_length : Option GoString → Bool
bad_key_length none = false
bad_key_length (some k) = ltb (char_length k) 1 || ltb 255 (char_length k)

abbrev pub bad_fingerprint_length : Option GoString → Bool
bad_fingerprint_length none = false
bad_fingerprint_length (some f) = not (length f == 32)

abbrev pub bad_currency : Currency → Bool
bad_currency c = not (length c == 3) || has_foreign_rune c

abbrev pub append_transfer : TransferRow → Tx (Done)
append_transfer t s = (ok done, record s { transfers = s.transfers ++ t ∷ [] })

-- `INSERT INTO transfers`, with the constraints of migrations 000002 and 000005.
unfoldable pub insert_transfer : TransferRow → Tx (Done)
insert_transfer t s =
    (fail_if (leb_ℤ t.amount_minor (pos 0))
          (violation check_violation (bytes "transfers_amount_positive"))
        >> fail_if (bad_currency t.currency)
            (violation check_violation (bytes "transfers_currency_format"))
        >> fail_if (t.source_account_id == t.destination_account_id)
            (violation check_violation (bytes "transfers_distinct_accounts"))
        >> fail_if (bad_key_length t.idempotency_key)
            (violation check_violation (bytes "transfers_idempotency_key_length"))
        >> fail_if (bad_fingerprint_length t.request_fingerprint)
            (violation check_violation (bytes "transfers_request_fingerprint_length"))
        >> fail_if (is_some (find_transfer t.id s.transfers))
            (violation unique_violation (bytes "transfers_pkey"))
        >> fail_if (key_taken t.idempotency_key s.transfers)
            (violation unique_violation idempotency_key_unique)
        >> fail_if (not (is_some (find_account t.source_account_id s.accounts)))
            (violation foreign_key_violation (bytes "transfers_source_account_id_fkey"))
        >> fail_if (not (is_some (find_account t.destination_account_id s.accounts)))
            (violation foreign_key_violation (bytes "transfers_destination_account_id_fkey"))
        >> append_transfer t)
      s

abbrev pub append_entry : Entry → Tx (Done)
append_entry e s = (ok done, record s { ledger_entries = s.ledger_entries ++ e ∷ [] })

-- One row of `INSERT INTO ledger_entries`, with the constraints of migration 000003.
unfoldable pub insert_entry : Entry → Tx (Done)
insert_entry e s =
    (fail_if (eqb_ℤ e.amount_minor (pos 0))
          (violation check_violation (bytes "ledger_entries_amount_non_zero"))
        >> fail_if (bad_currency e.currency)
            (violation check_violation (bytes "ledger_entries_currency_format"))
        >> fail_if (is_some (find_by (λ f. f.id == e.id) s.ledger_entries))
            (violation unique_violation (bytes "ledger_entries_pkey"))
        >> fail_if
            (is_some (
              find_by (λ f. (f.transfer_id == e.transfer_id) && (f.account_id == e.account_id))
                s.ledger_entries))
            (violation unique_violation (bytes "ledger_entries_one_leg_per_account"))
        >> fail_if (not (is_some (find_transfer e.transfer_id s.transfers)))
            (violation foreign_key_violation (bytes "ledger_entries_transfer_id_fkey"))
        >> fail_if (not (is_some (find_account e.account_id s.accounts)))
            (violation foreign_key_violation (bytes "ledger_entries_account_id_fkey"))
        >> append_entry e)
      s

-- `UPDATE transfers SET status = 'completed', completed_at = now() WHERE id = $1 AND status = 'pending'`
abbrev pub is_target : Uuid → TransferRow → Bool
is_target i t = (t.id == i) && is_pending t.status

abbrev pub completed_row : Time → TransferRow → TransferRow
completed_row now t = record t {
  transfer = record (t.transfer) { status = Status.completed; completed_at = some now };
}

abbrev pub complete_rows : Uuid → Time → List TransferRow → List TransferRow
complete_rows i now [] = []
complete_rows i now (t ∷ rest) =
    (if is_target i t then completed_row now t else t) ∷ complete_rows i now rest

-- The statement returns a row, or `pgx.ErrNoRows` where it matched none.
unfoldable pub complete_transfer : Uuid → Time → Tx (Done)
complete_transfer i now s =
    (if is_some (find_by (is_target i) s.transfers)
      then (ok done, record s { transfers = complete_rows i now s.transfers })
      else (err (Error.sentinel Sentinel.no_rows), s))

-- `assert_transfer_balanced` (000004): what the deferred triggers check of one transfer at COMMIT.
abbrev wrong_currency : Currency → List Entry → Bool
wrong_currency c [] = false
wrong_currency c (e ∷ rest) = not (str_eq e.currency c) || wrong_currency c rest

abbrev is_empty {ℓ} : {A : Type ℓ} → List A → Bool
is_empty [] = true
is_empty (x ∷ xs) = false

unfoldable pub transfer_unbalanced : Tables → TransferRow → Bool
transfer_unbalanced s t =
    let es = of_transfer t.id s.ledger_entries in
    if is_empty es
    then is_completed t.status
    else (not (eqb_ℤ (sum_amounts es) (pos 0)) || wrong_currency t.currency es)

abbrev pub deferred_checks : Tables → Uuid → Bool
deferred_checks s i = elim (find_transfer i s.transfers) [
  | none ↦ false
  | some t ↦ transfer_unbalanced s t
]
